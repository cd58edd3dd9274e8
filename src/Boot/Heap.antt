-- ===== src/Boot/Heap.antt =====
-- The allocations of c/init.c, which are cut from the first block of the heap.
use mathlib.Core.Path.{subst}
use cs415_a.Base.{ℕ, suc, ◌+◌, ◌-◌, ◌<◌, ◌^◌, ◌≡◌, ◌∙◌, List, ◌∷◌, some, length, arith, Returns}
use cs415_a.Heap.{Heap, kmalloc, align16, list_fuel}
use cs415_a.Heap.FreeList.{first_fit}
use cs415_a.Heap.Malloc.{IsHeap, Allocated, kmalloc-first_fit}

-- The first block is larger than the size and a header: the allocation is cut from it.
pub kmalloc-cuts :
    (h : Heap) (size a n : ℕ) (rs us : List (ℕ × ℕ))
    → IsHeap h ((a, n) ∷ rs) us
    → suc (length rs) < list_fuel
    → 0 < size
    → size < 2 ^ 31
    → align16 size + 16 < n
    → Returns
        (λ (ptr, h').
          (ptr ≡ a + 16)
          × (0 < a)
          × IsHeap h'
              ((a + 16 + align16 size, n - align16 size - 16) ∷ rs)
              ((a, align16 size) ∷ us))
        (kmalloc h size)
kmalloc-cuts h size a n rs us v few pos small room =
    let fit : first_fit (align16 size) ((a, n) ∷ rs)
        ≡ some (a, (a + 16 + align16 size, n - align16 size - 16) ∷ rs) =
      ground arith in
    let (r, run, given) = kmalloc-first_fit h size ((a, n) ∷ rs) us v few pos small in
    let cut = subst (λ o. Allocated h us (align16 size) o r) fit given in
    (r, run, (cut.0 ∙ omega (arith, v.sorted.1), omega (arith, v.linked.1), cut.1))
