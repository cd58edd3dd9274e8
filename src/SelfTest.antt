-- ===== src/SelfTest.antt =====
-- The tests of the memory manager in c/init.c, which the kernel runs itself if it is built with
-- RUNTEST; what they print is left out. A failed assertion loops for ever.
pub mod Runs
pub mod Places
pub mod Low
pub mod Kmalloc
pub mod Lists
pub mod Pids
pub mod Sleepers
use cs415_a.Base.{
  ℕ, zero, suc, ◌+◌, ◌-◌, ◌*◌, ◌==◌, ◌!=◌, if◌then◌else◌, Run, ok, out_of_fuel, ◌>>=◌,
}
use cs415_a.Base.Word.{add32, sub32}
use cs415_a.Heap.{
  Heap, Header, kmalloc, kfree, header_size, align16, hole_start, hole_end, list_fuel,
}

-- assertEquals(A, E)
abbrev pub assert_equals : (a e : ℕ) → Run {0} Unit
assert_equals a e = if e == a then ok tt else out_of_fuel

-- `while (hdr != NULL) …`
unfoldable pub count_headers : ℕ → Heap → (hdr i : ℕ) → Run ℕ
count_headers zero h hdr i = out_of_fuel
count_headers (suc fuel) h hdr i =
    let rest = count_headers fuel h (h.header hdr).next (add32 i 1) in
    if hdr != 0 then rest else ok i

unfoldable pub get_free_list_size : Heap → Run ℕ
unfolding count_headers list_fuel
get_free_list_size h = count_headers list_fuel h h.free_list 0

-- It prints the header.
unfoldable pub test_kmalloc_helper : Heap → (size : ℕ) → Run (ℕ × Heap)
unfolding kmalloc
test_kmalloc_helper h size = kmalloc h size

-- Allocates, and asserts which block it got and the size in its header.
unfoldable pub test_block : Heap → (request expected size : ℕ) → Run (ℕ × Heap)
unfolding test_kmalloc_helper
test_block h request expected size = do
  (ptr, h1) ← test_kmalloc_helper h request
  _ ← assert_equals ptr expected
  _ ← assert_equals (h1.header (sub32 ptr header_size)).size size
  ok (ptr, h1)

-- The blocks of the test: two small ones, and all that is left before the hole.
unfoldable pub allocate_low : (start : ℕ) → Heap → Run ((ℕ × ℕ × ℕ) × Heap)
unfolding test_block
allocate_low start h = do
  (ptr0, h1) ← test_block h 0x100 (add32 start header_size) 0x100
  (ptr1, h2) ← test_block h1 (0x100 - 0xf) (add32 start (2 * header_size + 0x100)) 0x100
  let size = sub32 hole_start (add32 start (3 * header_size + 0x200))
  (ptr2, h3) ← test_block h2 size (add32 start (3 * header_size + 0x200)) size
  ok ((ptr0, ptr1, ptr2), h3)

unfoldable pub free_blocks : (ptr0 ptr1 ptr2 ptr3 : ℕ) → Heap → Run Heap
unfolding kfree
free_blocks ptr0 ptr1 ptr2 ptr3 h =
    kfree h ptr0 >>= λ h1. kfree h1 ptr1 >>= λ h2. kfree h2 ptr2 >>= λ h3. kfree h3 ptr3

-- More memory than there is.
unfoldable pub allocate_too_much : Heap → Run Heap
unfolding test_kmalloc_helper
allocate_too_much h = do (ptr, h') ← test_kmalloc_helper h 0x400000; _ ← assert_equals ptr 0; ok h'

-- `ptr_a` has three elements; what is written behind it is taken as a fourth.
unfoldable pub test_kmalloc : (freemem : ℕ) → Heap → Run Heap
unfolding allocate_low test_kmalloc_helper free_blocks allocate_too_much
test_kmalloc freemem h = do
  ((ptr0, ptr1, ptr2), h3) ← allocate_low (align16 freemem) h
  (ptr3, h4) ← test_kmalloc_helper h3 0x100
  _ ← assert_equals ptr3 (add32 hole_end header_size)
  h8 ← free_blocks ptr0 ptr1 ptr2 ptr3 h4
  allocate_too_much h8
