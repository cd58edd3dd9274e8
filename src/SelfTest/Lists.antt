-- ===== src/SelfTest/Lists.antt =====
-- The test of the free list in c/init.c.
use cs415_a.Base.{ℕ, ◌+◌, Run, ok, ◌>>=◌}
use cs415_a.Heap.{Heap, kfree, hole_end}
use cs415_a.SelfTest.{assert_equals, get_free_list_size, test_kmalloc_helper}

-- It prints the address.
unfoldable pub test_kfree : Heap → (ptr : ℕ) → Run Heap
unfolding kfree
test_kfree h ptr = kfree h ptr

-- `listSize = getFreeListSize(); assertEquals(listSize, …);`
unfoldable pub expect_size : Heap → (count : ℕ) → Run {0} Unit
unfolding get_free_list_size
expect_size h count = get_free_list_size h >>= λ size. assert_equals size count

unfoldable pub allocate_expect : Heap → (size count : ℕ) → Run (ℕ × Heap)
unfolding test_kmalloc_helper expect_size
allocate_expect h size count = do
  (ptr, h') ← test_kmalloc_helper h size
  _ ← expect_size h' count
  ok (ptr, h')

unfoldable pub free_expect : Heap → (ptr count : ℕ) → Run Heap
unfolding test_kfree expect_size
free_expect h ptr count = do h' ← test_kfree h ptr; _ ← expect_size h' count; ok h'

-- All memory before the hole and behind it is taken and given back, and an address that is not a
-- block's is freed.
unfoldable pub test_all_memory : Heap → Run Heap
unfolding expect_size allocate_expect free_expect
test_all_memory h = do
  _ ← expect_size h 2
  (ptr1, h1) ← allocate_expect h (h.header h.free_list).size 1
  (ptr2, h2) ← allocate_expect h1 (h1.header h1.free_list).size 0
  h3 ← free_expect h2 ptr2 1
  h4 ← free_expect h3 ptr1 2
  free_expect h4 (hole_end + 0x4000) 2

-- Three blocks are taken and given back in another order.
unfoldable pub test_three_blocks : Heap → Run Heap
unfolding test_kmalloc_helper allocate_expect free_expect
test_three_blocks h = do
  (ptr1, h1) ← allocate_expect h 0x100 2
  (ptr2, h2) ← test_kmalloc_helper h1 0x100
  (ptr3, h3) ← allocate_expect h2 0x100 2
  h4 ← free_expect h3 ptr2 3
  h5 ← free_expect h4 ptr1 3
  free_expect h5 ptr3 2

unfoldable pub test_free_list : Heap → Run Heap
unfolding test_all_memory test_three_blocks
test_free_list h = test_all_memory h >>= λ h'. test_three_blocks h'
