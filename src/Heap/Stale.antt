-- ===== src/Heap/Stale.antt =====
-- The join of `kfree` of c/mem.c with a block that is not the last one.
use mathlib.Core.Path.{subst}
use cs415_a.Base.{
  ℕ, ◌+◌, ◌<◌, ◌≤◌, ◌^◌, ◌≡◌, ◌≢◌, ◌∙◌, refl, sym, ◌==◌, true, if◌then◌else◌, List, [], ◌∷◌, ◌++◌,
  arith, ==_refl, eq_of_==,
}
use cs415_a.Heap.{Heap, join_high, join_low}
use cs415_a.Heap.FreeList.{Linked, Sorted, SameLinks}
use cs415_a.Heap.Segment.{Segment}
use cs415_a.Heap.Join.{stale_above}
use cs415_a.Heap.JoinLow.{join_low_apart}
use cs415_a.Heap.Insert.{First}
use cs415_a.Heap.Free.{joined}

-- From `node`, behind the block `prev`, the links lead to a block whose successor has another block
-- as its predecessor.
pub record Torn (h : Heap) (prev node : ℕ) : Type 0 where
  pub blocks : List (ℕ × ℕ)
  pub last : ℕ
  pub successor : ℕ
  pub walk : Segment h prev node blocks last successor
  pub ne_null : successor ≢ 0
  pub torn : (h.header successor).prev ≢ last

Segment-append :
    (h : Heap) (prev node p q r t : ℕ) (ls hs : List (ℕ × ℕ))
    → Segment h prev node ls p q
    → Segment h p q hs r t
    → Segment h prev node (ls ++ hs) r t
Segment-append h prev node p q r t [] hs s w = rw (s.0, s.1) w
Segment-append h prev node p q r t ((a, n) ∷ ls) hs s w =
    (s.0, s.1, s.2, s.3, Segment-append h a (h.header a).next p q r t ls hs s.4 w)

pub Torn-behind :
    (h : Heap) (prev node p q : ℕ) (ls : List (ℕ × ℕ))
    → Segment h prev node ls p q
    → Torn h p q
    → Torn h prev node
Torn-behind h prev node p q ls s t = record {
  blocks = ls ++ t.blocks;
  last = t.last;
  successor = t.successor;
  walk = Segment-append h prev node p q t.last t.successor ls t.blocks s t.walk;
  ne_null = t.ne_null;
  torn = t.torn;
}

next_ne :
    (h : Heap) (prev b l : ℕ) (hs : List (ℕ × ℕ))
    → Linked h prev b ((b, l) ∷ hs)
    → Sorted b ((b, l) ∷ hs)
    → ((h.header b).next ≢ 0 → b < (h.header b).next)
next_ne h prev b l [] v s ne = absurd (ne v.4)
next_ne h prev b l ((c, k) ∷ hs) v s ne = omega (arith, v.4.0, s.2.0)

-- What joining at the block `j` leaves, when the block above is not the last.
pub record Tears (h h' : Heap) (prev j : ℕ) : Type 0 where
  pub torn : Torn h' prev j
  pub below : (z : ℕ) → z < j → SameLinks (h'.header z) (h.header z)
  pub list : h'.free_list ≡ h.free_list

module _ (h : Heap) (prev j n a k b l : ℕ) (hs : List (ℕ × ℕ))
    (v : Linked h prev j ((j, n) ∷ (a, k) ∷ (b, l) ∷ hs))
    (s : Sorted j ((j, n) ∷ (a, k) ∷ (b, l) ∷ hs)) (e : j + 16 + n ≡ a) where
  first : (h.header j).next ≡ a
  first = v.4.0

  second : (h.header a).next ≡ b
  second = v.4.4.0

  far : j + 16 + n + 16 + k < 2 ^ 31
  far = omega (arith, s.2.1, e)

  behind_b : (h.header b).next ≢ 0 → b < (h.header b).next
  behind_b =
      next_ne h a b l hs (refl, v.4.4.1, v.4.4.2, v.4.4.3, v.4.4.4) (omega arith, s.2.2.1, s.2.2.2)

  size_torn :
      (z : ℕ) → ((join_high h j).header z).size ≡ (if j == z then n + 16 + k else (h.header z).size)
  unfolding join_high
  size_torn z = ground (arith, first, second, far, v.2, v.4.1, v.4.2)

  next_torn : (z : ℕ) → ((join_high h j).header z).next ≡ (if j == z then b else (h.header z).next)
  unfolding join_high
  next_torn z = ground (arith, first, second, far, v.2, v.4.1)

  prev_torn : (z : ℕ) → z ≤ b → ((join_high h j).header z).prev ≡ (h.header z).prev
  unfolding join_high
  prev_torn z le = ground (arith, first, second, far, v.2, v.4.1, v.4.4.1, behind_b)

  list_torn : (join_high h j).free_list ≡ h.free_list
  unfolding join_high
  list_torn = ground arith

  Tears-adjoining : Tears h (join_high h j) prev j
  Tears-adjoining =
      let low : a + 16 + k ≤ b = s.2.2.0 in
      record {
        torn = record {
          blocks = (j, n + 16 + k) ∷ [];
          last = j;
          successor = b;
          walk = (
            refl,
            v.1,
            size_torn j ∙ rw (==_refl j) refl,
            prev_torn j (omega (arith, e)) ∙ v.3,
            (refl, next_torn j ∙ rw (==_refl j) refl),
          );
          ne_null = v.4.4.1;
          torn = omega (arith, prev_torn b (omega arith), v.4.4.3, e);
        };
        below = λ z lt. record {
          size = size_torn z ∙ ground arith;
          prev = prev_torn z (omega (arith, e));
          next = next_torn z ∙ ground arith;
        };
        list = list_torn;
      }

-- The successor of the block that is joined keeps that one as its predecessor.
pub Tears-join_high :
    (h : Heap) (prev j n : ℕ) (hs : List (ℕ × ℕ))
    → Linked h prev j ((j, n) ∷ hs)
    → Sorted j ((j, n) ∷ hs)
    → stale_above (j + 16 + n) hs ≡ true
    → Tears h (join_high h j) prev j
Tears-join_high h prev j n [] v s e = absurd (ground (arith, e))
Tears-join_high h prev j n (x ∷ []) v s e = absurd (ground (arith, e))
Tears-join_high h prev j n ((a, k) ∷ (b, l) ∷ hs) v s e =
    Tears-adjoining h prev j n a k b l hs v s (eq_of_== (j + 16 + n) a e)

-- The heap `kfree` returns has a free list that is torn.
pub Tears-First :
    (fuel : ℕ) (h : Heap) (b m : ℕ) (rs : List (ℕ × ℕ)) (f : First fuel h b m rs)
    → b + 16 + m < 2 ^ 31
    → Sorted (b + 16 + m) rs
    → stale_above (b + 16 + m) rs ≡ true
    → Torn (joined f.heap b) 0 (joined f.heap b).free_list
Tears-First fuel h b m rs f bound s stays =
    let same : join_low f.heap b ≡ (b, f.heap) =
      join_low_apart f.heap b 0 f.linked.3 (λ ne. absurd (ne refl)) in
    let t = Tears-join_high f.heap 0 b m rs f.linked (omega arith, bound, s) stays in
    rw same (subst (λ x. Torn (join_high f.heap b) 0 x) (sym (t.list ∙ f.list)) t.torn)
