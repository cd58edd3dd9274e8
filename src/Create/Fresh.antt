-- ===== src/Create/Fresh.antt =====
-- What `create` of c/create.c makes, field by field and word by word.
use mathlib.Core.Path.{subst}
use cs415_a.Base.{
  sym, ℕ, ◌+◌, ◌%◌, ◌<◌, ◌≤◌, ◌^◌, ◌≡◌, ◌≢◌, refl, ◌==◌, false, none, some, List, [], ◌∷◌, ◌++◌,
  length, arith, ok, Returns,
}
use cs415_a.Base.Word.{add32}
use cs415_a.Create.{create, find_pcb, fresh_pcb, align_int, safety_margin, context_size}
use cs415_a.Create.Start.{Started, create-Started}
use cs415_a.Create.Frame.{IsFirst, IsLoaded, IsFirst-first_frame}
use cs415_a.Heap.{Heap, kmalloc}
use cs415_a.Image.{Image}
use cs415_a.Kernel.{Kernel, Pcb, State, Slot, read_slot, max_num_process}
use cs415_a.PidMap.{height, node_size}
use cs415_a.PidMap.Order.{IsOrdered, Below}
use cs415_a.PidMap.Balance.{IsAvl, Grown}
use cs415_a.Queue.{queue_fuel}
use cs415_a.Queue.Chain.{Chain, Apart, Distinct}

-- The stack pointer lies behind a stack of `stack` bytes at `ptr`, rounded up to a multiple of 16.
pub record IsTop (ptr stack esp : ℕ) : Type 0 where
  pub size : ℕ
  pub aligned : size % 16 ≡ 0
  pub enough : stack ≤ size
  pub tight : size < stack + 16
  pub top : esp ≡ ptr + size

-- The PCB of a process that has not run.
pub record IsFresh (q : Pcb) (pid parent ptr stack : ℕ) : Type 0 where
  pub pid_new : q.pid ≡ pid
  pub parent_pid : q.parent_pid ≡ parent
  pub state : q.state ≡ State.ready
  pub stack_block : q.stack ≡ ptr
  pub esp : IsTop ptr stack q.esp
  pub no_senders : q.senders ≡ none
  pub no_receivers : q.receivers ≡ none
  pub no_handlers : (s : ℕ) → s < 32 → q.sig_handler s ≡ 0
  pub pending_sig : q.pending_sig ≡ 0
  pub allowed_sig : q.allowed_sig ≡ 0
  pub hi_sig : q.hi_sig ≡ 0xFFFFFFFF
  pub delta : q.delta ≡ 0
  pub iargs : q.iargs ≡ 0
  pub irc : q.irc ≡ 0
  pub closed : (fd : ℕ) → fd < 4 → q.opened_dv fd ≡ none

-- The new process `pid`, whose PCB is the `i`-th and whose stack is the block at `ptr`.
pub record Made (image : Image) (k : Kernel) (i func stack parent ptr : ℕ) (ps : List ℕ) (h : Heap)
    (pid : ℕ) (k' : Kernel) : Type 1 where
  pub pid_next : pid ≡ k.next_pid
  pub queue : Chain k' Slot.ready_slot (ps ++ (i ∷ []))
  pub pcb : IsFresh (k'.pcb_table i) pid parent ptr stack
  pub frame : IsFirst image k.memory (k'.pcb_table i).esp func k'.memory
  pub map : Grown k.pid_map pid i k'.pid_map
  pub next_pid : k'.next_pid ≡ add32 pid 1
  pub heap : k'.heap ≡ h
  pub idle : k'.idle ≡ k.idle
  pub others : (j : ℕ) → (i == j) ≡ false → (k'.pcb_table j).state ≡ (k.pcb_table j).state

IsTop-align_int :
    (ptr stack : ℕ)
    → stack + 16 < 2 ^ 31
    → ptr + stack + 64 ≤ 2 ^ 32
    → IsTop ptr stack (add32 ptr (align_int stack))
IsTop-align_int ptr stack small room = record {
  size = align_int stack;
  aligned = ground arith;
  enough = ground arith;
  tight = ground arith;
  top = ground arith;
}

module _ (image : Image) (k : Kernel) (i func stack parent ptr : ℕ) (ps : List ℕ) (h : Heap)
    (w : IsLoaded image) (address : func < 2 ^ 32) (small : stack + 16 < 2 ^ 31)
    (room : ptr + stack + 64 ≤ 2 ^ 32) where
  Made-Started :
      (pid : ℕ) (k' : Kernel)
      → Started image k i func stack parent ptr ps pid h k'
      → Made image k i func stack parent ptr ps h pid k'
  unfolding fresh_pcb read_slot
  Made-Started pid k' s =
      let top = IsTop-align_int ptr stack small room in
      let esp = add32 ptr (align_int stack) in
      let frame : IsFirst image k.memory esp func k'.memory =
        subst (λ m. IsFirst image k.memory esp func m) (sym s.memory)
          (IsFirst-first_frame image k.memory esp func w address
            (omega (arith, top.top, top.tight))) in
      record {
        pid_next = s.pid_new;
        queue = s.queue;
        pcb = record {
          pid_new = s.pcb.pid;
          parent_pid = s.pcb.parent_pid;
          state = s.state;
          stack_block = s.pcb.stack;
          esp = subst (λ x. IsTop ptr stack x) (sym s.pcb.esp) top;
          no_senders = s.no_senders;
          no_receivers = s.no_receivers;
          no_handlers = λ n lt. rw s.pcb.sig_handler refl;
          pending_sig = s.pcb.pending_sig;
          allowed_sig = s.pcb.allowed_sig;
          hi_sig = s.pcb.hi_sig;
          delta = s.pcb.delta;
          iargs = s.pcb.iargs;
          irc = s.pcb.irc;
          closed = λ fd lt. rw s.pcb.opened_dv refl;
        };
        frame = subst (λ x. IsFirst image k.memory x func k'.memory) (sym s.pcb.esp) frame;
        map = s.map;
        next_pid = s.next_pid;
        heap = s.heap;
        idle = s.idle;
        others = s.others;
      }

-- There is memory for the stack, at `ptr`, and then for a node of the map; the `i`-th PCB is the
-- first that is not in use; the next PID is not 0 and above all PIDs of the map, which is balanced,
-- in search order and of height below 2 ^ 29; the ready processes `ps` are distinct, fewer than 257
-- and not the `i`-th. The stack has a size below 2 ^ 31 - 16 and 64 bytes to spare below 2 ^ 32, and
-- the function, the code segment and `sysstop` are words. Then `create` returns the next PID. The map
-- has it with index `i`. The `i`-th PCB has the PID, its parent's, the stack, its pointer behind the
-- stack's size rounded up to a multiple of 16, no senders, receivers, handlers, signals or devices,
-- and results 0. At the stack pointer are eight registers of 0, the function, the code segment, the
-- flags with interrupts on, and the address of `sysstop`; no other memory is changed. The process is
-- READY at the end of the ready queue; no other state changes, and the heap is the one that the two
-- allocations leave.
pub create-Made :
    (image : Image) (k : Kernel) (i func stack parent : ℕ) (ps : List ℕ) (ptr : ℕ) (h1 : Heap)
    (addr : ℕ) (h2 : Heap)
    → IsLoaded image
    → func < 2 ^ 32
    → stack + 16 < 2 ^ 31
    → ptr + stack + 64 ≤ 2 ^ 32
    → kmalloc k.heap (add32 stack (safety_margin + context_size)) ≡ ok (ptr, h1)
    → ptr ≢ 0
    → find_pcb max_num_process 0 k.pcb_table ≡ some i
    → kmalloc h1 node_size ≡ ok (addr, h2)
    → addr ≢ 0
    → k.next_pid ≢ 0
    → IsAvl k.pid_map
    → IsOrdered k.pid_map
    → Below k.next_pid k.pid_map
    → height k.pid_map < 2 ^ 29
    → Chain k Slot.ready_slot ps
    → Distinct ps
    → Apart (Slot.next_slot i) ps
    → length ps < queue_fuel
    → Returns
        (λ (pid, k'). Made image k i func stack parent ptr ps h2 pid k')
        (create image k func stack parent)
create-Made image k i func stack parent ps ptr h1 addr h2 w address small room got here free got'
      here' ne bal o below low c d a few =
    let ((pid, k'), run, s) =
      create-Started image k i func stack parent ps ptr h1 addr h2 got here free got' here' ne bal o
        below low c d a few in
    (
      (pid, k'),
      run,
      Made-Started image k i func stack parent ptr ps h2 w address small room pid k' s,
    )
