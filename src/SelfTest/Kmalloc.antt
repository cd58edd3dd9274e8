-- ===== src/SelfTest/Kmalloc.antt =====
-- The test of `kmalloc` in c/init.c.
use mathlib.Core.Path.{subst}
use cs415_a.Base.{
  ℕ, ◌+◌, ◌-◌, ◌*◌, ◌/◌, ◌%◌, ◌!=◌, ◌<◌, ◌≤◌, ◌^◌, ◌≡◌, refl, sym, if◌then◌else◌, none, List, [],
  ◌∷◌, length, arith, Returns,
}
use cs415_a.Base.Word.{add32}
use cs415_a.Heap.{Heap, kmalloc, kfree, list_fuel, align16, hole_start, hole_end, kmeminit}
use cs415_a.Heap.FreeList.{first_fit}
use cs415_a.Heap.Malloc.{IsHeap, Allocated, kmalloc-first_fit}
use cs415_a.Heap.Init.{regions, kmeminit-IsHeap}
use cs415_a.SelfTest.{
  test_kmalloc_helper, allocate_low, free_blocks, allocate_too_much, test_kmalloc,
}
use cs415_a.SelfTest.Runs.{
  Returns-bind, Returns-run, Returns-assert, Served, Served-kmalloc, Freed-kfree, few_lem, few_one,
}
use cs415_a.SelfTest.Places.{
  high, upper, fourth_block, too_large, back_first, back_second, back_third, back_fourth,
  fresh_first, fresh_second, fresh_third, fresh_fourth,
}
use cs415_a.SelfTest.Low.{LowTaken, LowTaken-allocate_low}

Refused-kmalloc :
    (h : Heap) (size : ℕ) (rs us : List (ℕ × ℕ))
    → IsHeap h rs us
    → length rs < list_fuel
    → 0 < size
    → size < 2 ^ 31
    → first_fit (align16 size) rs ≡ none
    → Returns (λ (ptr, h'). (ptr ≡ 0) × (h' ≡ h)) (test_kmalloc_helper h size)
unfolding test_kmalloc_helper
Refused-kmalloc h size rs us v few pos small fit =
    subst (λ o. Returns (Allocated h us (align16 size) o) (kmalloc h size)) fit
      (kmalloc-first_fit h size rs us v few pos small)

-- The free memory starts at `s`, of which the low part has `n` bytes for a block.
module _ (s n q : ℕ) (pos : 0 < s) (aligned : s ≡ 16 * q) (fits : s + 16 + n ≡ hole_start)
    (room : 16 + 512 + 48 ≤ n) where
  abbrev WholeHeap : Heap → Type 0
  WholeHeap h = IsHeap h ((s, n) ∷ high) []

  abbrev last_two : List (ℕ × ℕ)
  last_two = (hole_end, 256) ∷ (s + 544, n - 544) ∷ []

  -- The blocks are given back in the order in which they were taken.
  WholeHeap-free_blocks :
      (h : Heap) (ptr0 ptr1 ptr2 ptr3 : ℕ)
      → IsHeap h upper ((hole_end, 256) ∷ (s + 544, n - 544) ∷ (s + 272, 256) ∷ (s, 256) ∷ [])
      → ptr0 ≡ s + 16
      → ptr1 ≡ s + 272 + 16
      → ptr2 ≡ s + 544 + 16
      → ptr3 ≡ hole_end + 16
      → Returns WholeHeap (free_blocks ptr0 ptr1 ptr2 ptr3 h)
  unfolding free_blocks
  WholeHeap-free_blocks h ptr0 ptr1 ptr2 ptr3 v at0 at1 at2 at3 =
      let (h1, run1, v1) =
        Freed-kfree h ptr0 s 256 upper ((s, 256) ∷ upper)
          ((hole_end, 256) ∷ (s + 544, n - 544) ∷ (s + 272, 256) ∷ []) []
          ((hole_end, 256) ∷ (s + 544, n - 544) ∷ (s + 272, 256) ∷ []) v few_one at0
          (fresh_first s n q pos aligned fits room) (back_first s n q pos aligned fits room) refl in
      let (h2, run2, v2) =
        Freed-kfree h1 ptr1 (s + 272) 256 ((s, 256) ∷ upper) ((s, 528) ∷ upper) last_two [] last_two
          v1 few_lem at1 (fresh_second s n q pos aligned fits room)
          (back_second s n q pos aligned fits room) refl in
      let (h3, run3, v3) =
        Freed-kfree h2 ptr2 (s + 544) (n - 544) ((s, 528) ∷ upper) ((s, n) ∷ upper)
          ((hole_end, 256) ∷ []) [] ((hole_end, 256) ∷ []) v2 few_lem at2
          (fresh_third s n q pos aligned fits room) (back_third s n q pos aligned fits room) refl in
      let (h4, run4, v4) =
        Freed-kfree h3 ptr3 hole_end 256 ((s, n) ∷ upper) ((s, n) ∷ high) [] [] [] v3 few_lem at3
          (fresh_fourth s n q pos aligned fits room) (back_fourth s n q pos aligned fits room)
          refl in
      Returns-run WholeHeap (kfree h ptr0) h1 _ run1 (
        Returns-run WholeHeap (kfree h1 ptr1) h2 _ run2
          (Returns-run WholeHeap (kfree h2 ptr2) h3 _ run3 (h4, run4, v4)))

  WholeHeap-allocate_too_much : (h : Heap) → WholeHeap h → Returns WholeHeap (allocate_too_much h)
  unfolding allocate_too_much
  WholeHeap-allocate_too_much h v =
      Returns-bind (λ (ptr, h'). (ptr ≡ 0) × (h' ≡ h)) WholeHeap (test_kmalloc_helper h 0x400000) _
        (Refused-kmalloc h 0x400000 ((s, n) ∷ high) [] v few_lem (omega arith) (omega arith)
          (too_large s n q pos aligned fits room))
        (λ (ptr, h') (at, same).
          Returns-assert WholeHeap ptr 0 _ at (h', refl, subst WholeHeap (sym same) v))

  WholeHeap-test_kmalloc :
      (freemem : ℕ) (h : Heap)
      → align16 freemem ≡ s
      → WholeHeap h
      → Returns WholeHeap (test_kmalloc freemem h)
  unfolding test_kmalloc
  WholeHeap-test_kmalloc freemem h start v =
      Returns-bind (LowTaken s n q pos aligned fits room) WholeHeap
        (allocate_low (align16 freemem) h) _
        (subst (λ x. Returns (LowTaken s n q pos aligned fits room) (allocate_low x h)) (sym start)
          (LowTaken-allocate_low s n q pos aligned fits room h v))
        (λ ((ptr0, ptr1, ptr2), h3) (at0, at1, at2, v3).
          Returns-bind
            (Served hole_end 256 upper ((s + 544, n - 544) ∷ (s + 272, 256) ∷ (s, 256) ∷ []))
            WholeHeap (test_kmalloc_helper h3 0x100) _
            (Served-kmalloc h3 0x100 256 hole_end high upper
              ((s + 544, n - 544) ∷ (s + 272, 256) ∷ (s, 256) ∷ []) v3 few_one (omega arith)
              (omega arith) refl (fourth_block s n q pos aligned fits room))
            (λ (ptr3, h4) (at3, v4). Returns-assert WholeHeap ptr3 (add32 hole_end 16) _ at3 (
              Returns-bind WholeHeap WholeHeap (free_blocks ptr0 ptr1 ptr2 ptr3 h4)
                allocate_too_much (WholeHeap-free_blocks h4 ptr0 ptr1 ptr2 ptr3 v4 at0 at1 at2 at3)
                (λ h8 v8. WholeHeap-allocate_too_much h8 v8))))

-- The free memory starts behind address 0 and at least 607 bytes before the hole. Then all assertions
-- of the test of `kmalloc` hold in the heap that `kmeminit` makes, and it leaves the two free blocks
-- that `kmeminit` made, and no allocated one.
pub test_kmalloc-kmeminit :
    (freemem : ℕ) (h : Heap)
    → 0 < freemem
    → freemem + 607 ≤ hole_start
    → Returns (λ h'. IsHeap h' (regions freemem) []) (test_kmalloc freemem (kmeminit freemem h))
test_kmalloc-kmeminit freemem h pos low =
    let q = freemem / 16 + (if freemem % 16 != 0 then 1 else 0) in
    WholeHeap-test_kmalloc (align16 freemem) (hole_start - 16 - align16 freemem) q (ground arith)
      (ground arith) (ground arith) (ground arith) freemem (kmeminit freemem h) refl
      (kmeminit-IsHeap freemem h pos (omega arith))
