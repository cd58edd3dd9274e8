-- ===== src/Heap/FreeList.antt =====
-- The free list of c/mem.c as the list of its blocks, each with the address of its header and its
-- size.
use cs415_a.Base.{
  ℕ, ◌+◌, ◌-◌, ◌<◌, ◌≤◌, ◌^◌, ◌≡◌, ◌∙◌, refl, ◌≢◌, ◌⊎◌, ltb, ◌==◌, if◌then◌else◌, Option, none,
  some, true, false, List, [], ◌∷◌, arith,
}
use cs415_a.Heap.{Heap, Header}

-- The doubly linked list that `node` points to, behind the block `prev` (0 if there is none).
abbrev pub Linked : Heap → (prev node : ℕ) → List (ℕ × ℕ) → Type 0
Linked h prev node [] = node ≡ 0
Linked h prev node ((a, n) ∷ rs) =
    (node ≡ a)
    × (a ≢ 0)
    × ((h.header a).size ≡ n)
    × ((h.header a).prev ≡ prev)
    × Linked h a (h.header a).next rs

-- The blocks lie behind each other from the address `lo` on, and below 2 ^ 31.
abbrev pub Sorted : (lo : ℕ) → List (ℕ × ℕ) → Type 0
Sorted lo [] = Unit
Sorted lo ((a, n) ∷ rs) = (lo ≤ a) × (a + 16 + n < 2 ^ 31) × Sorted (a + 16 + n) rs

pub record IsFreeList (h : Heap) (rs : List (ℕ × ℕ)) : Type 0 where
  pub linked : Linked h 0 h.free_list rs
  pub sorted : Sorted 1 rs

-- First fit: the block taken for `amount` bytes, and the blocks that are left. A block that is
-- larger by more than a header is split.
abbrev pub first_fit : (amount : ℕ) → List (ℕ × ℕ) → Option (ℕ × List (ℕ × ℕ))
first_fit amount [] = none
first_fit amount ((a, n) ∷ rs) =
    if ltb n amount
    then elim (first_fit amount rs) [ none ↦ none | some (b, rest) ↦ some (b, (a, n) ∷ rest) ]
    else if ltb (amount + 16) n
    then some (a, (a + 16 + amount, n - amount - 16) ∷ rs)
    else some (a, rs)

-- The block of `m` bytes at `b` lies apart from all of the list.
abbrev pub Clear : (b m : ℕ) → List (ℕ × ℕ) → Type 0
Clear b m [] = Unit
Clear b m ((a, n) ∷ rs) = ((b + 16 + m ≤ a) ⊎ (a + 16 + n ≤ b)) × Clear b m rs

-- Where the list goes on behind the block `prev`.
abbrev pub link : Heap → (prev : ℕ) → ℕ
link h prev = if prev == 0 then h.free_list else (h.header prev).next

-- Two headers that differ at most in the sanity check.
pub record SameLinks (p q : Header) : Type 0 where
  pub size : p.size ≡ q.size
  pub prev : p.prev ≡ q.prev
  pub next : p.next ≡ q.next

-- The list does not read what lies below it.
pub Linked-frame :
    (h h' : Heap) (prev node lo : ℕ) (rs : List (ℕ × ℕ))
    → Linked h prev node rs
    → Sorted lo rs
    → ((z : ℕ) → lo ≤ z → SameLinks (h'.header z) (h.header z))
    → Linked h' prev node rs
Linked-frame h h' prev node lo [] l s same = l
Linked-frame h h' prev node lo ((a, n) ∷ rs) l s same =
    let e = same a s.0 in
    (
      l.0,
      l.1,
      e.size ∙ l.2,
      e.prev ∙ l.3,
      rw e.next (
          Linked-frame h h' a (h.header a).next (a + 16 + n) rs l.4 s.2
            (λ z le. same z (omega (arith, s.0)))),
    )

-- The first block gets another predecessor.
pub Linked-relink :
    (h h' : Heap) (prev prev' node lo : ℕ) (rs : List (ℕ × ℕ))
    → Linked h prev node rs
    → Sorted lo rs
    → ((z : ℕ) → lo ≤ z → (h'.header z).size ≡ (h.header z).size)
    → ((z : ℕ) → lo ≤ z → (h'.header z).next ≡ (h.header z).next)
    → ((z : ℕ) → lo ≤ z → (h'.header z).prev ≡ (if z == node then prev' else (h.header z).prev))
    → Linked h' prev' node rs
Linked-relink h h' prev prev' node lo [] l s sizes nexts prevs = l
Linked-relink h h' prev prev' node lo ((a, n) ∷ rs) l s sizes nexts prevs =
    let here : (a == node) ≡ true = ground (arith, l.0) in
    let rest : (z : ℕ) → a + 16 + n ≤ z → SameLinks (h'.header z) (h.header z) = λ z le.
      let away : (z == node) ≡ false = ground (arith, l.0) in
      let below : lo ≤ z = omega (arith, s.0) in
      record { size = sizes z below; prev = prevs z below ∙ rw away refl; next = nexts z below } in
    (
      l.0,
      l.1,
      sizes a s.0 ∙ l.2,
      prevs a s.0 ∙ rw here refl,
      rw (nexts a s.0) (Linked-frame h h' a (h.header a).next (a + 16 + n) rs l.4 s.2 rest),
    )
