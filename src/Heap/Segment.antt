-- ===== src/Heap/Segment.antt =====
-- The lower part of the free list of c/mem.c, up to a block where something is put or joined.
use cs415_a.Base.{ℕ, ◌+◌, ◌<◌, ◌≤◌, ◌^◌, ◌≡◌, ◌≢◌, ◌∙◌, refl, List, [], ◌∷◌, ◌++◌, arith}
use cs415_a.Heap.{Heap}
use cs415_a.Heap.FreeList.{Linked, Sorted, SameLinks}

-- From `node`, which is behind the block `prev`, the links lead through the blocks `ls` to `q`, and
-- `p` is the last of the blocks, or `prev` if there is none.
abbrev pub Segment : Heap → (prev node : ℕ) → List (ℕ × ℕ) → (p q : ℕ) → Type 0
Segment h prev node [] p q = (prev ≡ p) × (node ≡ q)
Segment h prev node ((a, n) ∷ ls) p q =
    (node ≡ a)
    × (a ≢ 0)
    × ((h.header a).size ≡ n)
    × ((h.header a).prev ≡ prev)
    × Segment h a (h.header a).next ls p q

-- All blocks end at `top` or before.
abbrev pub Below : (top : ℕ) → List (ℕ × ℕ) → Type 0
Below top [] = Unit
Below top ((a, n) ∷ ls) = (a + 16 + n ≤ top) × Below top ls

pub Below-up : (top top' : ℕ) (ls : List (ℕ × ℕ)) → top ≤ top' → Below top ls → Below top' ls
Below-up top top' [] le b = tt
Below-up top top' ((a, n) ∷ ls) le b = (omega (arith, b.0), Below-up top top' ls le b.1)

pub Linked-split :
    (h : Heap) (prev node : ℕ) (ls hs : List (ℕ × ℕ))
    → Linked h prev node (ls ++ hs)
    → (p : ℕ) × (q : ℕ) × Segment h prev node ls p q × Linked h p q hs
Linked-split h prev node [] hs l = (prev, node, (refl, refl), l)
Linked-split h prev node ((a, n) ∷ ls) hs l =
    let (p, q, s, t) = Linked-split h a (h.header a).next ls hs l.4 in
    (p, q, (l.0, l.1, l.2, l.3, s), t)

pub Linked-append :
    (h : Heap) (prev node p q : ℕ) (ls hs : List (ℕ × ℕ))
    → Segment h prev node ls p q
    → Linked h p q hs
    → Linked h prev node (ls ++ hs)
Linked-append h prev node p q [] hs s l = rw (s.0, s.1) l
Linked-append h prev node p q ((a, n) ∷ ls) hs s l =
    (s.0, s.1, s.2, s.3, Linked-append h a (h.header a).next p q ls hs s.4 l)

-- A segment does not read what does not lie below its top.
pub Segment-frame :
    (h h' : Heap) (prev node p q top : ℕ) (ls : List (ℕ × ℕ))
    → Segment h prev node ls p q
    → Below top ls
    → ((z : ℕ) → z < top → SameLinks (h'.header z) (h.header z))
    → Segment h' prev node ls p q
Segment-frame h h' prev node p q top [] s b same = s
Segment-frame h h' prev node p q top ((a, n) ∷ ls) s b same =
    let e = same a (omega (arith, b.0)) in
    (
      s.0,
      s.1,
      e.size ∙ s.2,
      e.prev ∙ s.3,
      rw e.next (Segment-frame h h' a (h.header a).next p q top ls s.4 b.1 same),
    )

pub Sorted-split :
    (lo : ℕ) (ls : List (ℕ × ℕ)) (a n : ℕ) (hs : List (ℕ × ℕ))
    → Sorted lo (ls ++ ((a, n) ∷ hs))
    → Below a ls × (lo ≤ a) × (a + 16 + n < 2 ^ 31) × Sorted (a + 16 + n) hs
Sorted-split lo [] a n hs s = (tt, s.0, s.1, s.2)
Sorted-split lo ((x, k) ∷ ls) a n hs s =
    let (b, le, bound, t) = Sorted-split (x + 16 + k) ls a n hs s.2 in
    ((le, b), omega (arith, le, s.0), bound, t)

-- Other blocks may follow the lower part, if they lie above it.
pub Sorted-append :
    (lo : ℕ) (ls : List (ℕ × ℕ)) (rest : List (ℕ × ℕ)) (a n : ℕ) (hs : List (ℕ × ℕ))
    → Sorted lo (ls ++ ((a, n) ∷ hs))
    → Sorted a rest
    → ((lo' : ℕ) → lo' ≤ a → Sorted lo' rest)
    → Sorted lo (ls ++ rest)
Sorted-append lo [] rest a n hs s r low = low lo s.0
Sorted-append lo ((x, k) ∷ ls) rest a n hs s r low =
    (s.0, s.1, Sorted-append (x + 16 + k) ls rest a n hs s.2 r low)
