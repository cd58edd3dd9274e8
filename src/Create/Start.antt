-- ===== src/Create/Start.antt =====
-- `create` of c/create.c, when there is memory, a PCB and a PID.
use mathlib.Core.Path.{subst}
use cs415_a.Base.{
  ap, ◌==◌, ℕ, suc, true, ◌+◌, ◌<◌, ◌^◌, ◌≡◌, ◌≢◌, ◌∙◌, refl, ◌!=◌, ==_refl, false, true, none,
  some, List, [], ◌∷◌, ◌++◌, length, arith, ok, Returns, bind_ok,
}
use cs415_a.Base.Word.{add32}
use cs415_a.Create.{
  create, start_process, get_next_pid, find_pid, find_pcb, first_frame, fresh_pcb, safety_margin,
  context_size, pid_fuel, align_int,
}
use cs415_a.Heap.{Heap, kmalloc}
use cs415_a.Image.{Image}
use cs415_a.Kernel.{Kernel, Pcb, State, Slot, read_slot, set_pcb, max_num_process}
use cs415_a.Kernel.Slots.{slot_eq, SameData}
use cs415_a.PidMap.{Tree, lookup, height, node_size}
use cs415_a.PidMap.Order.{IsOrdered, Below, All-imp, lookup-absent}
use cs415_a.PidMap.Balance.{IsAvl, Grown}
use cs415_a.PidMap.Grow.{insert-Grown_heap}
use cs415_a.Queue.{queue_fuel}
use cs415_a.Queue.Chain.{Chain, Apart, Apart-head, Distinct, Chain-frame, SameNext-of_Apart}
use cs415_a.Queue.Rest.{ready-SameRest, state-ready}
use cs415_a.Queue.Ready.{ready-append}

-- Setting a PCB leaves the queues of others.
read_slot-others :
    (k : Kernel) (i : ℕ) (q : Pcb) (j : ℕ)
    → slot_eq (Slot.next_slot i) (Slot.next_slot j) ≡ false
    → read_slot (set_pcb k i q) (Slot.next_slot j) ≡ read_slot k (Slot.next_slot j)
unfolding read_slot
read_slot-others k i q j e = ground arith

find_pid_here :
    (fuel : ℕ) (t : Tree) (x : ℕ) → x ≢ 0 → lookup t x ≡ none → find_pid (suc fuel) t x ≡ ok x
unfolding find_pid
find_pid_here fuel t x ne free = ground (arith, free)

find_pid_first : (t : Tree) (x : ℕ) → x ≢ 0 → lookup t x ≡ none → find_pid pid_fuel t x ≡ ok x
unfolding pid_fuel
find_pid_first t x ne free = find_pid_here 257 t x ne free

get_next_pid_free :
    (k : Kernel)
    → k.next_pid ≢ 0
    → lookup k.pid_map k.next_pid ≡ none
    → get_next_pid k ≡ ok (k.next_pid, record k { next_pid = add32 k.next_pid 1 })
unfolding get_next_pid
get_next_pid_free k ne free = rw (find_pid_first k.pid_map k.next_pid ne free) refl

-- The new process `pid`, whose PCB is the `i`-th and whose stack is the block at `ptr`.
pub record Started (image : Image) (k : Kernel) (i func stack parent ptr : ℕ) (ps : List ℕ)
    (pid : ℕ) (h : Heap) (k' : Kernel) : Type 1 where
  pub pid_new : pid ≡ k.next_pid
  pub queue : Chain k' Slot.ready_slot (ps ++ (i ∷ []))
  pub state : (k'.pcb_table i).state ≡ State.ready
  pub pcb :
      SameData
        (k'.pcb_table i)
        (fresh_pcb (k.pcb_table i) pid parent ptr (add32 ptr (align_int stack)))
  pub no_senders : read_slot k' (Slot.senders_slot i) ≡ none
  pub no_receivers : read_slot k' (Slot.receivers_slot i) ≡ none
  pub map : Grown k.pid_map pid i k'.pid_map
  pub memory : k'.memory ≡ first_frame image k.memory (add32 ptr (align_int stack)) func
  pub next_pid : k'.next_pid ≡ add32 pid 1
  pub heap : k'.heap ≡ h
  pub idle : k'.idle ≡ k.idle
  pub others : (j : ℕ) → (i == j) ≡ false → (k'.pcb_table j).state ≡ (k.pcb_table j).state

present : (x : ℕ) → x ≢ 0 → (x != 0) ≡ true
present x ne = ground arith

module _ (image : Image) (k : Kernel) (i func stack parent : ℕ) (ps : List ℕ) (ptr : ℕ) (h1 : Heap)
    (addr : ℕ) (h2 : Heap) where
  started_lem :
      kmalloc h1 node_size ≡ ok (addr, h2)
      → addr ≢ 0
      → k.next_pid ≢ 0
      → IsAvl k.pid_map
      → IsOrdered k.pid_map
      → Below k.next_pid k.pid_map
      → height k.pid_map < 2 ^ 29
      → Chain k Slot.ready_slot ps
      → Distinct ps
      → Apart (Slot.next_slot i) ps
      → length ps < queue_fuel
      → Returns
          (λ (pid, k'). Started image k i func stack parent ptr ps pid h2 k')
          (start_process image (record k { heap = h1 }) i func stack parent ptr)
  unfolding start_process fresh_pcb read_slot
  started_lem got valid ne bal o below small c d a few =
      let absent =
        lookup-absent k.pid_map k.next_pid (All-imp (λ x lt. omega (arith, lt)) k.pid_map below) in
      let named = get_next_pid_free (record k { heap = h1 }) ne absent in
      let ((t', h'), grown, (g, left)) =
        insert-Grown_heap h1 h2 addr k.next_pid i got valid k.pid_map bal o below small in
      let esp = add32 ptr (align_int stack) in
      let k2 = record k {
        next_pid = add32 k.next_pid 1;
        pid_map = t';
        heap = h';
        memory = first_frame image k.memory esp func;
      } in
      let k3 = set_pcb k2 i (fresh_pcb (k.pcb_table i) k.next_pid parent ptr esp) in
      let c' : Chain k3 Slot.ready_slot ps =
        Chain-frame k k3 Slot.ready_slot ps refl
          (SameNext-of_Apart k k3 (Slot.next_slot i) ps
            (λ j e. read_slot-others k2 i (fresh_pcb (k.pcb_table i) k.next_pid parent ptr esp) j e)
            a)
          c in
      let mine : k3.pcb_table i ≡ fresh_pcb (k.pcb_table i) k.next_pid parent ptr esp =
        rw (==_refl i) refl in
      let (k4, run, made) = ready-append k3 i ps c' d a few in
      let rest = ready-SameRest k3 k4 i ps c' few run in
      (
        (k.next_pid, k4),
        rw (named, grown, run) refl,
        record {
          pid_new = refl;
          queue = made.queue;
          state = made.state;
          pcb = subst (λ q. SameData (k4.pcb_table i) q) mine (made.data_kept i);
          no_senders =
              made.others (Slot.senders_slot i) [] refl
                (Apart-head (Slot.senders_slot i) (λ j. refl) (i ∷ ps)) tt
                (ap (λ q. q.senders) mine);
          no_receivers =
              made.others (Slot.receivers_slot i) [] refl
                (Apart-head (Slot.receivers_slot i) (λ j. refl) (i ∷ ps)) tt
                (ap (λ q. q.receivers) mine);
          map = rw rest.pid_map g;
          memory = rest.memory;
          next_pid = rest.next_pid;
          heap = rest.heap ∙ left;
          idle = rest.idle;
          others = λ j other. state-ready k3 k4 i ps j c' few run other ∙ rw other refl;
        },
      )

  create_lem :
      kmalloc k.heap (add32 stack (safety_margin + context_size)) ≡ ok (ptr, h1)
      → ptr ≢ 0
      → find_pcb max_num_process 0 k.pcb_table ≡ some i
      → create image k func stack parent
        ≡ start_process image (record k { heap = h1 }) i func stack parent ptr
  unfolding create
  create_lem room here free =
      bind_ok (kmalloc k.heap (add32 stack (safety_margin + context_size))) (ptr, h1) _ room
      ∙ rw (present ptr here) (rw free refl)

  -- There is memory for the stack, at `ptr`, and then for a node of the map; the `i`-th PCB is the
  -- first that is not in use; the next PID is not 0 and above all PIDs of the map, which is balanced,
  -- in search order and of height below 2 ^ 29; the ready processes `ps` are distinct, fewer than 257
  -- and not the `i`-th. Then `create` returns the next PID. The map has it with index `i`; the `i`-th
  -- PCB is set as by `fresh_pcb`, and the memory as by `first_frame` at its stack pointer;
  -- the process is READY at the end of the ready queue; no other state changes, and the heap is the
  -- one that the two allocations leave.
  pub create-Started :
      kmalloc k.heap (add32 stack (safety_margin + context_size)) ≡ ok (ptr, h1)
      → ptr ≢ 0
      → find_pcb max_num_process 0 k.pcb_table ≡ some i
      → kmalloc h1 node_size ≡ ok (addr, h2)
      → addr ≢ 0
      → k.next_pid ≢ 0
      → IsAvl k.pid_map
      → IsOrdered k.pid_map
      → Below k.next_pid k.pid_map
      → height k.pid_map < 2 ^ 29
      → Chain k Slot.ready_slot ps
      → Distinct ps
      → Apart (Slot.next_slot i) ps
      → length ps < queue_fuel
      → Returns
          (λ (pid, k'). Started image k i func stack parent ptr ps pid h2 k')
          (create image k func stack parent)
  create-Started room here free got valid ne bal o below small c d a few =
      let (r, run, made) = started_lem got valid ne bal o below small c d a few in
      (r, create_lem room here free ∙ run, made)
