-- ===== src/SelfTest/Low.antt =====
-- The first three blocks of the test of `kmalloc` in c/init.c.
use mathlib.Core.Path.{subst}
use cs415_a.Base.{ℕ, ◌+◌, ◌-◌, ◌*◌, ◌<◌, ◌≤◌, ◌≡◌, refl, sym, [], ◌∷◌, arith, Returns}
use cs415_a.Base.Word.{add32, sub32}
use cs415_a.Heap.{Heap, hole_start}
use cs415_a.Heap.Malloc.{IsHeap}
use cs415_a.SelfTest.{test_block, allocate_low}
use cs415_a.SelfTest.Runs.{Returns-bind, Served, Served-test_block, few_lem}
use cs415_a.SelfTest.Places.{high, first_block, second_block, third_block, align_third, size_third}

-- The free memory starts at `s`, of which the low part has `n` bytes for a block.
module _ (s n q : ℕ) (pos : 0 < s) (aligned : s ≡ 16 * q) (fits : s + 16 + n ≡ hole_start)
    (room : 16 + 512 + 48 ≤ n) where
  -- The heap when the low part is used up.
  abbrev pub LowTaken : (ℕ × ℕ × ℕ) × Heap → Type 0
  LowTaken ((ptr0, ptr1, ptr2), h) =
      (ptr0 ≡ s + 16)
      × (ptr1 ≡ s + 272 + 16)
      × (ptr2 ≡ s + 544 + 16)
      × IsHeap h high ((s + 544, n - 544) ∷ (s + 272, 256) ∷ (s, 256) ∷ [])

  -- The sizes and places that the test computes.
  place_first : s + 16 ≡ add32 s 16
  place_first = ground arith

  place_second : s + 272 + 16 ≡ add32 s (2 * 16 + 0x100)
  place_second = ground arith

  place_third : s + 544 + 16 ≡ add32 s (3 * 16 + 0x200)
  place_third = ground arith

  Served-first :
      (h : Heap)
      → IsHeap h ((s, n) ∷ high) []
      → Returns
          (Served s 256 ((s + 272, n - 272) ∷ high) [])
          (test_block h 0x100 (add32 s 16) 0x100)
  Served-first h v =
      Served-test_block h 0x100 (add32 s 16) 0x100 s ((s, n) ∷ high) ((s + 272, n - 272) ∷ high) []
        v few_lem (omega arith) (omega arith) refl (first_block s n q pos aligned fits room)
        place_first

  Served-second :
      (h : Heap)
      → IsHeap h ((s + 272, n - 272) ∷ high) ((s, 256) ∷ [])
      → Returns
          (Served (s + 272) 256 ((s + 544, n - 544) ∷ high) ((s, 256) ∷ []))
          (test_block h (0x100 - 0xf) (add32 s (2 * 16 + 0x100)) 0x100)
  Served-second h v =
      Served-test_block h (0x100 - 0xf) (add32 s (2 * 16 + 0x100)) 0x100 (s + 272)
        ((s + 272, n - 272) ∷ high) ((s + 544, n - 544) ∷ high) ((s, 256) ∷ []) v few_lem
        (omega arith) (omega arith) refl (second_block s n q pos aligned fits room) place_second

  abbrev size : ℕ
  size = sub32 hole_start (add32 s (3 * 16 + 0x200))

  Served-third :
      (h : Heap)
      → IsHeap h ((s + 544, n - 544) ∷ high) ((s + 272, 256) ∷ (s, 256) ∷ [])
      → Returns
          (Served (s + 544) size high ((s + 272, 256) ∷ (s, 256) ∷ []))
          (test_block h size (add32 s (3 * 16 + 0x200)) size)
  Served-third h v =
      subst
        (λ m.
          Returns (Served (s + 544) m high ((s + 272, 256) ∷ (s, 256) ∷ []))
            (test_block h m (add32 s (3 * 16 + 0x200)) m))
        (sym (size_third s n q pos aligned fits room))
        (Served-test_block h (n - 544) (add32 s (3 * 16 + 0x200)) (n - 544) (s + 544)
          ((s + 544, n - 544) ∷ high) high ((s + 272, 256) ∷ (s, 256) ∷ []) v few_lem (omega arith)
          (omega arith) (align_third s n q pos aligned fits room)
          (third_block s n q pos aligned fits room) place_third)

  pub LowTaken-allocate_low :
      (h : Heap) → IsHeap h ((s, n) ∷ high) [] → Returns LowTaken (allocate_low s h)
  unfolding allocate_low
  LowTaken-allocate_low h v =
      Returns-bind (Served s 256 ((s + 272, n - 272) ∷ high) []) LowTaken
        (test_block h 0x100 (add32 s 16) 0x100) _ (Served-first h v)
        (λ (ptr0, h1) (at0, v1).
          Returns-bind (Served (s + 272) 256 ((s + 544, n - 544) ∷ high) ((s, 256) ∷ [])) LowTaken
            (test_block h1 (0x100 - 0xf) (add32 s (2 * 16 + 0x100)) 0x100) _ (Served-second h1 v1)
            (λ (ptr1, h2) (at1, v2).
              Returns-bind (Served (s + 544) size high ((s + 272, 256) ∷ (s, 256) ∷ [])) LowTaken
                (test_block h2 size (add32 s (3 * 16 + 0x200)) size) _ (Served-third h2 v2)
                (λ (ptr2, h3) (at2, v3).
                  let v4 =
                    subst (λ m. IsHeap h3 high ((s + 544, m) ∷ (s + 272, 256) ∷ (s, 256) ∷ []))
                      (size_third s n q pos aligned fits room) v3 in
                  (((ptr0, ptr1, ptr2), h3), refl, (at0, at1, at2, v4)))))
