-- ===== src/Heap/Place.antt =====
-- Where `kfree` of c/mem.c puts a block back into the free list.
use cs415_a.Base.{
  ℕ, zero, suc, ◌+◌, ◌<◌, ◌≤◌, ◌≡◌, ◌≢◌, ◌∙◌, refl, List, [], ◌∷◌, ◌++◌, length, arith, inl, inr,
  ◌⊎◌, ok,
}
use cs415_a.Heap.{Heap, find_place}
use cs415_a.Heap.FreeList.{Linked, Sorted, Clear}
use cs415_a.Heap.Took.{first_after}
use cs415_a.Heap.Segment.{Below}

-- A block apart from a sorted list is below all of it, or behind one of its blocks and below the
-- next.
abbrev pub Place : (b m : ℕ) → List (ℕ × ℕ) → Type 0
Place b m rs =
    Sorted (b + 16 + m) rs
    ⊎ ((ls : List (ℕ × ℕ)) × (p : ℕ) × (n : ℕ) × (hs : List (ℕ × ℕ)) × (rs ≡ ls ++ ((p, n) ∷ hs))
        × (p + 16 + n ≤ b)
        × Sorted (b + 16 + m) hs)

pub place_lem : (b m lo : ℕ) (rs : List (ℕ × ℕ)) → Sorted lo rs → Clear b m rs → Place b m rs
place_lem b m lo [] s c = inl tt
place_lem b m lo ((a, n) ∷ rs) s c = elim c.0 [
  | inl le ↦ inl (le, s.1, s.2)
  | inr le ↦ elim (place_lem b m (a + 16 + n) rs s.2 c.1) [
    | inl above ↦ inr ([], a, n, rs, refl, le, above)
    | inr (ls, p, k, hs, e, behind, above) ↦ inr ((a, n) ∷ ls, p, k, hs, rw e refl, behind, above)
  ]
]

find_place_here :
    (fuel : ℕ) (h : Heap) (node b : ℕ)
    → ((h.header node).next ≢ 0 → b ≤ (h.header node).next)
    → find_place (suc fuel) h node b ≡ ok node
unfolding find_place
find_place_here fuel h node b above = ground (arith, above)

find_place_next :
    (fuel : ℕ) (h : Heap) (node b : ℕ)
    → (h.header node).next ≢ 0
    → (h.header node).next < b
    → find_place (suc fuel) h node b ≡ find_place fuel h (h.header node).next b
unfolding find_place
find_place_next fuel h node b ne lt = ground arith

-- The search ends at the last block below `b`.
pub find_place_lem :
    (fuel : ℕ) (h : Heap) (prev node b p n : ℕ) (ls hs : List (ℕ × ℕ))
    → Linked h prev node (ls ++ ((p, n) ∷ hs))
    → Below p ls
    → p < b
    → Sorted b hs
    → length ls < fuel
    → find_place fuel h node b ≡ ok p
find_place_lem zero h prev node b p n ls hs l low lt s few = absurd (omega arith)
find_place_lem (suc fuel) h prev node b p n [] hs l low lt s few =
    rw l.0 (find_place_here fuel h p b (first_after h p (h.header p).next b hs l.4 s))
find_place_lem (suc fuel) h prev node b p n ((a, k) ∷ []) hs l low lt s few = rw l.0 (
    find_place_next fuel h a b (omega (arith, l.4.0, l.4.1)) (omega (arith, l.4.0))
    ∙ find_place_lem fuel h a (h.header a).next b p n [] hs l.4 tt lt s (omega arith))
find_place_lem (suc fuel) h prev node b p n ((a, k) ∷ (c, i) ∷ ls) hs l low lt s few = rw l.0 (
    find_place_next fuel h a b (omega (arith, l.4.0, l.4.1)) (omega (arith, l.4.0, low.1.0))
    ∙ find_place_lem fuel h a (h.header a).next b p n ((c, i) ∷ ls) hs l.4 low.1 lt s (omega arith))
