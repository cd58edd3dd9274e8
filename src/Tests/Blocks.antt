-- ===== src/Tests/Blocks.antt =====
-- The heap of c/mem.c and the search for a PID of c/create.c at concrete states.
use cs415_a.Base.{◌≡◌, arith, [], Returns}
use cs415_a.Base.Word.{add32}
use cs415_a.Create.{get_next_pid}
use cs415_a.Create.Pid.{get_next_pid-IsFree, IsFree}
use cs415_a.Heap.{kmeminit, kmalloc, list_fuel}
use cs415_a.Heap.FreeList.{first_fit}
use cs415_a.Heap.Init.{kmeminit-IsHeap, regions}
use cs415_a.Heap.Malloc.{IsHeap, Allocated, kmalloc-first_fit}
use cs415_a.Kernel.{Kernel}
use cs415_a.PidMap.{leaf, node}
use cs415_a.Tests.{kernel, empty_heap}

-- The free memory starts at an address that is not a multiple of 16.
kmeminit-IsHeap_example : IsHeap (kmeminit 0x9005 empty_heap) (regions 0x9005) []
kmeminit-IsHeap_example = kmeminit-IsHeap 0x9005 empty_heap (omega arith) (omega arith)

kmalloc-first_fit_example :
    Returns
      (Allocated (kmeminit 0x9005 empty_heap) [] 32 (first_fit 32 (regions 0x9005)))
      (kmalloc (kmeminit 0x9005 empty_heap) 20)
unfolding list_fuel
kmalloc-first_fit_example =
    kmalloc-first_fit (kmeminit 0x9005 empty_heap) 20 (regions 0x9005) []
      (kmeminit-IsHeap 0x9005 empty_heap (omega arith) (omega arith)) (omega arith) (omega arith)
      (omega arith)

-- The last PID and 0 are skipped, and so are 1 and 2, which processes have.
abbrev wrapping : Kernel
wrapping = record kernel {
  next_pid = 0xffffffff;
  pid_map = node 0x3000 2 1 (node 0x3100 1 0 leaf leaf 1) (node 0x3200 0xffffffff 2 leaf leaf 1) 2;
}

get_next_pid-IsFree_example :
    Returns
      (λ (pid, k'). IsFree wrapping.pid_map pid × (k' ≡ record wrapping { next_pid = add32 pid 1 }))
      (get_next_pid wrapping)
get_next_pid-IsFree_example = get_next_pid-IsFree wrapping (omega arith) (omega arith)
