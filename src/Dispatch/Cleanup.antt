-- ===== src/Dispatch/Cleanup.antt =====
-- `cleanup` of c/disp.c: what is left when a process stops.
use cs415_a.Base.{true, ◌⊎◌, ℕ, ◌<◌, ◌≡◌, ◌==◌, false, if◌then◌else◌, none, List, ◌++◌}
use cs415_a.Heap.{Heap}
use cs415_a.Heap.Malloc.{IsHeap}
use cs415_a.Heap.Release.{put_back, stale}
use cs415_a.Heap.Stale.{Torn}
use cs415_a.PidMap.{Tree, lookup}
use cs415_a.Kernel.{Kernel, State, Slot, read_slot, set_pcb}
use cs415_a.Queue.Chain.{Chain, Apart}
use cs415_a.Dispatch.Release.{Told}
use cs415_a.Dispatch.Unblock.{Same}

-- The heap when a block that was allocated has been freed: the list of the free blocks has it in its
-- place, or, where it adjoins a free block above it that is not the last, a link is stale.
abbrev pub FreedHeap : (c l : ℕ) (rs us : List (ℕ × ℕ)) → Heap → Type 0
FreedHeap c l rs us h =
    ((stale c l rs ≡ false) × IsHeap h (put_back c l rs) us)
    ⊎ ((stale c l rs ≡ true) × Torn h 0 h.free_list)

-- The processes that waited are ready and know it; the process is stopped, has no stack and no open
-- descriptor, and is no longer in the map. Its stack `(b, m)` is given back to the free blocks, and
-- then the node `(c, l)` of the map, and the other blocks stay allocated.
pub record Cleaned (k : Kernel) (p : ℕ) (rs qs us : List ℕ) (free : List (ℕ × ℕ)) (b m c l : ℕ)
    (blocks : List (ℕ × ℕ)) (k' : Kernel) : Type 0 where
  pub heap : FreedHeap c l (put_back b m free) blocks k'.heap
  pub queue : Chain k' Slot.ready_slot (rs ++ (qs ++ us))
  pub told_all : Told k' (qs ++ us)
  pub no_senders : read_slot k' (Slot.senders_slot p) ≡ none
  pub no_receivers : read_slot k' (Slot.receivers_slot p) ≡ none
  pub others :
      (j : ℕ)
      → (p == j) ≡ false
      → Apart (Slot.next_slot j) (qs ++ us)
      → Same (k'.pcb_table j) (k.pcb_table j)
  pub stopped : (k'.pcb_table p).state ≡ State.stopped
  pub no_stack : (k'.pcb_table p).stack ≡ 0
  pub closed : (fd : ℕ) → fd < 4 → (k'.pcb_table p).opened_dv fd ≡ none
  pub unmapped :
      (x : ℕ)
      → lookup k'.pid_map x ≡ (if (k.pcb_table p).pid == x then none else lookup k.pid_map x)

-- The kernel at the end, before the map is changed.
abbrev stopped_kernel : Kernel → Heap → (p : ℕ) → Kernel
stopped_kernel k heap p =
    set_pcb (record k { heap = heap }) p
      (record (k.pcb_table p) { next = none; stack = 0; state = State.stopped })

module _ (k : Kernel) (p : ℕ) (heap : Heap) (t : Tree) (heap' : Heap) where
  abbrev last : Kernel
  last = record (stopped_kernel k heap p) { pid_map = t; heap = heap' }
