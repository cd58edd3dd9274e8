-- ===== src/Tests/Frees.antt =====
-- `kfree` of c/mem.c at a block between free ones, and the kernel's own test of `kmalloc`.
use cs415_a.Base.{ℕ, refl, arith, ◌==◌, if◌then◌else◌, List, [], ◌∷◌, Returns}
use cs415_a.Heap.{Heap, Header, kmeminit, kfree, list_fuel}
use cs415_a.Heap.Init.{regions}
use cs415_a.SelfTest.{test_kmalloc}
use cs415_a.SelfTest.Kmalloc.{test_kmalloc-kmeminit}
use cs415_a.Tests.{empty_heap}
use cs415_a.Heap.Malloc.{IsHeap}
use cs415_a.Heap.Release.{put_back}
use cs415_a.Heap.Reclaim.{kfree-put_back}
use cs415_a.Heap.Stale.{Torn}
use cs415_a.Heap.Torn.{kfree-stale}

abbrev free_header : (size prev next : ℕ) → Header
free_header size prev next = record { size = size; prev = prev; next = next; sanity_check = 0 }

abbrev used_header : (a size : ℕ) → Header
used_header a size = record { size = size; prev = 0; next = 0; sanity_check = a }

-- An allocated block between two free ones that it adjoins, and one above them.
abbrev pub between : Heap
between = record {
  free_list = 0x1000;
  header = λ a.
      if a == 0x1000
      then free_header 32 0 0x1060
      else if a == 0x1030
      then used_header 0x1040 32
      else if a == 0x1060
      then free_header 48 0x1000 0
      else used_header 0x2010 64;
}

abbrev pub between_free : List (ℕ × ℕ)
between_free = (0x1000, 32) ∷ (0x1060, 48) ∷ []

abbrev pub between_used : List (ℕ × ℕ)
between_used = (0x2000, 64) ∷ (0x1030, 32) ∷ []

pub between-IsHeap : IsHeap between between_free between_used
between-IsHeap = record {
  linked = (refl, omega arith, refl, refl, (refl, omega arith, refl, refl, refl));
  sorted = (omega arith, omega arith, (omega arith, omega arith, tt));
  blocks = ground arith;
  placed = (omega arith, omega arith, (omega arith, omega arith, tt));
}

kfree-put_back_example :
    Returns
      (λ h'. IsHeap h' (put_back 0x1030 32 between_free) ((0x2000, 64) ∷ []))
      (kfree between 0x1040)
unfolding list_fuel
kfree-put_back_example =
    kfree-put_back between 0x1030 32 between_free ((0x2000, 64) ∷ []) [] between-IsHeap
      (omega arith) refl

-- The block between them adjoins the first, and there are three.
abbrev below_two : Heap
below_two = record {
  free_list = 0x1060;
  header = λ a.
      if a == 0x1030
      then used_header 0x1040 32
      else if a == 0x1060
      then free_header 48 0 0x2000
      else free_header 64 0x1060 0;
}

abbrev below_free : List (ℕ × ℕ)
below_free = (0x1060, 48) ∷ (0x2000, 64) ∷ []

below_two-IsHeap : IsHeap below_two below_free ((0x1030, 32) ∷ [])
below_two-IsHeap = record {
  linked = (refl, omega arith, refl, refl, (refl, omega arith, refl, refl, refl));
  sorted = (omega arith, omega arith, (omega arith, omega arith, tt));
  blocks = ground arith;
  placed = (omega arith, omega arith, tt);
}

kfree-stale_example : Returns (λ h'. Torn h' 0 h'.free_list) (kfree below_two 0x1040)
unfolding list_fuel
kfree-stale_example =
    kfree-stale below_two 0x1030 32 below_free [] [] below_two-IsHeap (omega arith) refl

-- The free memory starts at an address that is not a multiple of 16.
test_kmalloc-kmeminit_example :
    Returns (λ h'. IsHeap h' (regions 0x9005) []) (test_kmalloc 0x9005 (kmeminit 0x9005 empty_heap))
test_kmalloc-kmeminit_example = test_kmalloc-kmeminit 0x9005 empty_heap (omega arith) (omega arith)
