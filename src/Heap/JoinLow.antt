-- ===== src/Heap/JoinLow.antt =====
-- The coalescing of `kfree` of c/mem.c with the free block below.

use cs415_a.Base.{
  ℕ, ◌+◌, ◌<◌, ◌≤◌, ◌^◌, ◌≡◌, ◌≢◌, ◌∙◌, refl, ◌==◌, true, if◌then◌else◌, List, ◌∷◌, ◌&&◌, ◌!=◌,
  arith, ==_refl, eq_of_==,
}
use cs415_a.Heap.{Heap, join_low}
use cs415_a.Heap.FreeList.{Linked, Sorted, Linked-relink}
use cs415_a.Heap.Took.{first_after}
use cs415_a.Heap.Join.{Joined}

-- No block below adjoins.
pub join_low_apart :
    (h : Heap) (b p : ℕ)
    → (h.header b).prev ≡ p
    → (p ≢ 0 → (p + 16 + (h.header p).size ≢ b) × (p + 16 + (h.header p).size < 2 ^ 31))
    → join_low h b ≡ (b, h)
unfolding join_low
join_low_apart h b p e apart = ground (arith, apart)

-- The block below adjoins, and ends before 2 ^ 31.
module _ (h : Heap) (p b : ℕ) (ne : p ≢ 0) (prev_b : (h.header b).prev ≡ p)
    (adjoins : p + 16 + (h.header p).size ≡ b) (bound : b + 16 + (h.header b).size < 2 ^ 31)
    (above : (h.header b).next ≢ 0 → b + 16 + (h.header b).size ≤ (h.header b).next) where
  abbrev h1 : Heap
  h1 = (join_low h b).1

  joined_low : (join_low h b).0 ≡ p
  unfolding join_low
  joined_low = ground arith

  size_low :
      (z : ℕ)
      → (h1.header z).size
        ≡ (if p == z then (h.header p).size + 16 + (h.header b).size else (h.header z).size)
  unfolding join_low
  size_low z = ground (arith, above)

  next_low :
      (z : ℕ) → (h1.header z).next ≡ (if p == z then (h.header b).next else (h.header z).next)
  unfolding join_low
  next_low z = ground (arith, above)

  prev_low :
      (z : ℕ)
      → (h1.header z).prev
        ≡ (if ((h.header b).next != 0) && (z == (h.header b).next) then p else (h.header z).prev)
  unfolding join_low
  prev_low z = ground (arith, above)

  sanity_low : (z : ℕ) → (h1.header z).sanity_check ≡ (h.header z).sanity_check
  unfolding join_low
  sanity_low z = ground arith

  list_low : h1.free_list ≡ h.free_list
  unfolding join_low
  list_low = ground arith

  Joined-low : Joined h h1 p
  Joined-low = record {
    below = λ z lt. record {
      size = size_low z ∙ ground arith;
      prev = prev_low z ∙ ground (arith, above);
      next = next_low z ∙ ground arith;
    };
    sizes = λ z ne'. size_low z ∙ ground arith;
    sanity = sanity_low;
    list = list_low;
  }

-- The two blocks, as one if they adjoin.
pub join_low-Linked :
    (h : Heap) (prev p n b m : ℕ) (hs : List (ℕ × ℕ))
    → Linked h prev p ((p, n) ∷ (b, m) ∷ hs)
    → Sorted p ((p, n) ∷ (b, m) ∷ hs)
    → (p + 16 + n == b) ≡ true
    → ((join_low h b).0 ≡ p)
      × Linked (join_low h b).1 prev p ((p, n + 16 + m) ∷ hs)
      × Joined h (join_low h b).1 p
join_low-Linked h prev p n b m hs l s e =
    let adjoins : p + 16 + (h.header p).size ≡ b = rw l.2 (eq_of_== (p + 16 + n) b e) in
    let size_b : (h.header b).size ≡ m = l.4.2 in
    let prev_b : (h.header b).prev ≡ p = l.4.3 in
    let bound : b + 16 + (h.header b).size < 2 ^ 31 = omega (arith, size_b, s.2.1) in
    let above : (h.header b).next ≢ 0 → b + 16 + (h.header b).size ≤ (h.header b).next = λ ne.
      omega (arith, size_b, first_after h b (h.header b).next (b + 16 + m) hs l.4.4 s.2.2 ne) in
    let h1 = (join_low h b).1 in
    let sizes = size_low h p b l.1 prev_b adjoins bound above in
    let nexts = next_low h p b l.1 prev_b adjoins bound above in
    let prevs = prev_low h p b l.1 prev_b adjoins bound above in
    let far : p < b = omega (arith, adjoins) in
    let follows : (h1.header p).next ≡ (h.header b).next = nexts p ∙ rw (==_refl p) refl in
    (
      joined_low h p b l.1 prev_b adjoins bound above,
      (
        refl,
        l.1,
        sizes p ∙ rw (==_refl p) (omega (arith, l.2, size_b)),
        prevs p ∙ ground (arith, above) ∙ l.3,
        rw follows (
            Linked-relink h h1 b p (h.header b).next (b + 16 + m) hs l.4.4 s.2.2
              (λ z le. sizes z ∙ ground arith) (λ z le. nexts z ∙ ground arith)
              (λ z le. prevs z ∙ ground arith)),
      ),
      Joined-low h p b l.1 prev_b adjoins bound above,
    )
