-- ===== src/Heap/Join.antt =====
-- The coalescing of `kfree` of c/mem.c on the list of the free blocks.
use mathlib.Core.Path.{subst}
use cs415_a.Base.{
  ℕ, ◌+◌, ◌<◌, ◌^◌, ◌≡◌, ◌≢◌, ◌∙◌, refl, sym, ◌==◌, Bool, false, if◌then◌else◌, List, [], ◌∷◌,
  arith, inl, inr, Bool-cases, ==_refl, eq_of_==,
}
use cs415_a.Heap.{Heap, join_high}
use cs415_a.Heap.FreeList.{Linked, Sorted, SameLinks}

-- The block `(b, m)` before the blocks `hs`, joined with the first of them if they adjoin.
abbrev pub join_above : (b m : ℕ) → List (ℕ × ℕ) → List (ℕ × ℕ)
join_above b m [] = (b, m) ∷ []
join_above b m ((a, n) ∷ hs) =
    if b + 16 + m == a then (b, m + 16 + n) ∷ hs else (b, m) ∷ (a, n) ∷ hs

-- The block that ends at `top` adjoins the first of `hs`, and that is not the last.
abbrev pub stale_above : (top : ℕ) → List (ℕ × ℕ) → Bool
stale_above top [] = false
stale_above top (x ∷ []) = false
stale_above top ((a, n) ∷ x ∷ hs) = top == a

-- What joining at the block `j` leaves of the heap.
pub record Joined (h h' : Heap) (j : ℕ) : Type 0 where
  pub below : (z : ℕ) → z < j → SameLinks (h'.header z) (h.header z)
  pub sizes : (z : ℕ) → z ≢ j → (h'.header z).size ≡ (h.header z).size
  pub sanity : (z : ℕ) → (h'.header z).sanity_check ≡ (h.header z).sanity_check
  pub list : h'.free_list ≡ h.free_list

pub Joined-refl : (h : Heap) (j : ℕ) → Joined h h j
Joined-refl h j = record {
  below = λ z lt. record { size = refl; prev = refl; next = refl };
  sizes = λ z ne. refl;
  sanity = λ z. refl;
  list = refl;
}

-- The block above does not adjoin.
join_high_apart :
    (h : Heap) (j : ℕ)
    → ((h.header j).next ≢ 0 → j + 16 + (h.header j).size ≢ (h.header j).next)
    → j + 16 + (h.header j).size < 2 ^ 31
    → join_high h j ≡ h
unfolding join_high
join_high_apart h j apart bound = ground (arith, apart)

-- The block above adjoins, and is the last.
module _ (h : Heap) (j : ℕ) (ne : (h.header j).next ≢ 0)
    (adjoins : j + 16 + (h.header j).size ≡ (h.header j).next)
    (last : (h.header (h.header j).next).next ≡ 0)
    (bound : (h.header j).next + 16 + (h.header (h.header j).next).size < 2 ^ 31) where
  size_high :
      (z : ℕ)
      → ((join_high h j).header z).size ≡ (
          if j == z
          then (h.header j).size + 16 + (h.header (h.header j).next).size
          else (h.header z).size)
  unfolding join_high
  size_high z = ground arith

  next_high : (z : ℕ) → ((join_high h j).header z).next ≡ (if j == z then 0 else (h.header z).next)
  unfolding join_high
  next_high z = ground arith

  prev_high : (z : ℕ) → ((join_high h j).header z).prev ≡ (h.header z).prev
  unfolding join_high
  prev_high z = ground arith

  sanity_high : (z : ℕ) → ((join_high h j).header z).sanity_check ≡ (h.header z).sanity_check
  unfolding join_high
  sanity_high z = ground arith

  list_high : (join_high h j).free_list ≡ h.free_list
  unfolding join_high
  list_high = ground arith

  Joined-high : Joined h (join_high h j) j
  Joined-high = record {
    below = λ z lt. record {
      size = size_high z ∙ ground arith;
      prev = prev_high z;
      next = next_high z ∙ ground arith;
    };
    sizes = λ z ne'. size_high z ∙ ground arith;
    sanity = sanity_high;
    list = list_high;
  }

-- The block above does not adjoin: nothing changes.
apart-Linked :
    (h : Heap) (prev j n a k : ℕ) (hs : List (ℕ × ℕ))
    → Linked h prev j ((j, n) ∷ (a, k) ∷ hs)
    → j + 16 + n < 2 ^ 31
    → (j + 16 + n == a) ≡ false
    → Linked (join_high h j) prev j ((j, n) ∷ (a, k) ∷ hs) × Joined h (join_high h j) j
apart-Linked h prev j n a k hs l bound apart =
    let ne : j + 16 + n ≢ a = ground arith in
    let same =
      join_high_apart h j (λ _. omega (arith, l.2, l.4.0, ne)) (omega (arith, l.2, bound)) in
    subst (λ g. Linked g prev j ((j, n) ∷ (a, k) ∷ hs) × Joined h g j) (sym same)
      (l, Joined-refl h j)

-- The blocks from `j` on, when the block above may have joined.
pub join_high-Linked :
    (h : Heap) (prev j n : ℕ) (hs : List (ℕ × ℕ))
    → Linked h prev j ((j, n) ∷ hs)
    → Sorted j ((j, n) ∷ hs)
    → stale_above (j + 16 + n) hs ≡ false
    → Linked (join_high h j) prev j (join_above j n hs) × Joined h (join_high h j) j
join_high-Linked h prev j n [] l s stale =
    let same =
      join_high_apart h j (λ ne. absurd (omega (arith, l.4, ne))) (omega (arith, l.2, s.1)) in
    rw same (l, Joined-refl h j)
join_high-Linked h prev j n ((a, k) ∷ []) l s stale = elim (Bool-cases (j + 16 + n == a)) [
  | inl adjoins ↦
      let e : j + 16 + n ≡ a = eq_of_== (j + 16 + n) a adjoins in
      let ne : (h.header j).next ≢ 0 = omega (arith, l.4.0, l.4.1) in
      let meets : j + 16 + (h.header j).size ≡ (h.header j).next = omega (arith, l.2, l.4.0, e) in
      let last : (h.header (h.header j).next).next ≡ 0 = rw l.4.0 l.4.4 in
      let k_size : (h.header (h.header j).next).size ≡ k = rw l.4.0 l.4.2 in
      let bound : (h.header j).next + 16 + (h.header (h.header j).next).size < 2 ^ 31 =
        omega (arith, k_size, l.4.0, s.2.1) in
      rw adjoins (
        (
          refl,
          l.1,
          size_high h j ne meets last bound j ∙ rw (==_refl j) (omega (arith, l.2, k_size)),
          prev_high h j ne meets last bound j ∙ l.3,
          next_high h j ne meets last bound j ∙ rw (==_refl j) refl,
        ),
        Joined-high h j ne meets last bound,
      )
  | inr apart ↦ rw apart (apart-Linked h prev j n a k [] l s.1 apart)
]
join_high-Linked h prev j n ((a, k) ∷ x ∷ hs) l s stale =
    rw stale (apart-Linked h prev j n a k (x ∷ hs) l s.1 stale)

next_ne :
    (h : Heap) (prev b l : ℕ) (hs : List (ℕ × ℕ))
    → Linked h prev b ((b, l) ∷ hs)
    → Sorted b ((b, l) ∷ hs)
    → (h.header b).next ≢ b
next_ne h prev b l [] v s = omega (arith, v.4, v.1)
next_ne h prev b l ((c, k) ∷ hs) v s = omega (arith, v.4.0, s.2.0)
