-- ===== src/Tests.antt =====
-- A kernel with processes in the ready queue and in the sleep list, one with pending signals, and
-- a driver with characters: the theorems at concrete states of the kernel.
mod Blocks
mod Calls
mod Frees
mod Output
mod Loop
mod Receive
mod SelfRuns
mod Start
mod Stops
use cs415_a.Base.{
  ℕ, ◌+◌, ◌-◌, ◌/◌, ◌^◌, ◌<◌, ◌≤◌, ◌≡◌, ◌⊎◌, refl, arith, Option, none, some, List, [], ◌∷◌, ◌++◌,
  map, update, ok, fault, aborted, Returns, ◌==◌, ltb, if◌then◌else◌,
}
use cs415_a.Base.Word.{add32}
use cs415_a.Heap.{Heap, kmeminit, kmalloc, kfree, list_fuel, take_node}
use cs415_a.Image.{Image}
use cs415_a.Keyboard.Calls.{buf_copy, keyboard_read}
use cs415_a.Keyboard.Read.{keyboard_read-aborts}
use cs415_a.Keyboard.Copy.{buf_copy-Fed, Fed}
use cs415_a.Keyboard.Driver.{Driver, insert_char, remove_char}
use cs415_a.Keyboard.Ring.{
  insert_char-enqueue, enqueue, remove_char-pops, contents, IsRing, advance,
}
use cs415_a.Kernel.{Kernel, Pcb, State, Slot, read_slot, read_word}
use cs415_a.PidMap.{Tree, leaf, node, insert, delete, lookup, height, rotate_right}
use cs415_a.PidMap.Order.{IsOrdered}
use cs415_a.PidMap.Remove.{victim}
use cs415_a.PidMap.Delete.{lookup-delete}
use cs415_a.PidMap.Balance.{Grown}
use cs415_a.PidMap.Grow.{insert-Grown}
use cs415_a.PidMap.Rotate.{rotate_right-loses}
use cs415_a.Queue.{queue_fuel, ready, next, remove_pid}
use cs415_a.Queue.Chain.{Chain, Distinct}
use cs415_a.Queue.Ready.{Appended, ready-append}
use cs415_a.Queue.Remove.{Removed, remove_pid-Removed}
use cs415_a.Sleep.{sleep, tick}
use cs415_a.Sleep.Times.{times, insert_time}
use cs415_a.Sleep.Insert.{sleep-inserts}
use cs415_a.Sleep.Tick.{tick-wakes, total, one_less}
use cs415_a.Sleep.Fault.{tick-faults}
use cs415_a.Signal.{deliver, deliver_signal}
use cs415_a.Signal.Priority.{deliver_signal-IsHighest, IsHighest, Taken}
use cs415_a.Dispatch.{sigreturn, enter, choose, Request}
use cs415_a.Dispatch.Choose.{choose-pick}
use cs415_a.Syscall.{Stub, ContextFrame, trap_of, call_of}
use cs415_a.Syscall.Enter.{enter-trap_of, Arguments}
use cs415_a.Dispatch.Sigreturn.{sigreturn-deliver}

abbrev pub blank : Pcb
blank = record {
  pid = 0;
  parent_pid = 0;
  state = State.ready;
  next = none;
  senders = none;
  receivers = none;
  esp = 0x200000;
  stack = 0x1ff000;
  irc = 0;
  iargs = 0;
  delta = 0;
  sig_handler = λ s. 0;
  pending_sig = 0;
  allowed_sig = 0;
  hi_sig = 2 ^ 32 - 1;
  opened_dv = λ fd. none;
}

abbrev sleeper : (next : Option ℕ) (delta : ℕ) → Pcb
sleeper q d = record blank { pid = d + 300; state = State.sleeping; next = q; delta = d }

-- The ready queue is 1, 2. Then 3, 4 and 5 sleep for 1, 1 and 4 ticks. Process 6 has signals.
abbrev pub table : ℕ → Pcb
table p =
    if p == 1
    then record blank { pid = 257; next = some 2 }
    else if p == 2
    then record blank { pid = 258 }
    else if p == 3
    then sleeper (some 4) 1
    else if p == 4
    then sleeper (some 5) 0
    else if p == 5
    then sleeper none 3
    else if p == 6
    then record blank {
      pid = 262;
      pending_sig = 9;
      hi_sig = 2 ^ 32 - 2 ^ 2;
      sig_handler = λ s. 0x5000;
    }
    else blank

-- The reader 6 has read one character of ten, and "ab" and a newline wait for it.
abbrev typed : Driver
typed = record {
  pcb = some 6;
  buf = 0x6000;
  buf_len = 10;
  ch_read = 1;
  eof = 4;
  echo = 1;
  status = 0;
  kb_buf = λ i. if i == 3 then 97 else if i == 0 then 98 else 10;
  head = 3;
  size = 3;
  scan = 0;
  icu = record { master = 0; slave = 0 };
  console = [];
}

abbrev pub empty_heap : Heap
empty_heap = record {
  free_list = 0;
  header = λ a. record { size = 0; prev = 0; next = 0; sanity_check = 0 };
}

abbrev pub kernel : Kernel
kernel = record {
  pcb_table = table;
  ready_queue = some 1;
  sleep_list = some 3;
  idle = none;
  pid_map = cs415_a.PidMap.leaf;
  next_pid = 256;
  driver = typed;
  heap = empty_heap;
  memory = λ a. 0;
  printed = [];
  ports = [];
}

abbrev pub image : Image
image = record {
  cs = 8;
  sysstop = 0x1000;
  sigtramp = 0x1100;
  fake_return = 0x1200;
  freemem = 0x9000;
}

pub ready-Chain : Chain kernel Slot.ready_slot (1 ∷ 2 ∷ [])
unfolding read_slot
ready-Chain = (refl, (refl, refl))

pub sleep-Chain : Chain kernel Slot.sleep_slot (3 ∷ 4 ∷ 5 ∷ [])
unfolding read_slot
sleep-Chain = (refl, (refl, (refl, refl)))

two-Distinct : Distinct (1 ∷ 2 ∷ [])
two-Distinct = ((refl, tt), (tt, tt))

three-Distinct : Distinct (3 ∷ 4 ∷ 5 ∷ [])
three-Distinct = ((refl, (refl, tt)), ((refl, tt), (tt, tt)))

all-Distinct : Distinct (1 ∷ 2 ∷ 3 ∷ 4 ∷ 5 ∷ [])
all-Distinct = ((refl, (refl, (refl, (refl, tt)))), ((refl, (refl, (refl, tt))), three-Distinct))

ready-append_example : Returns (Appended kernel 6 (1 ∷ 2 ∷ [])) (ready kernel 6)
unfolding queue_fuel
ready-append_example =
    ready-append kernel 6 (1 ∷ 2 ∷ []) ready-Chain two-Distinct (refl, (refl, tt)) (omega arith)

-- The list that starts at the ready queue is searched for the process 2.
remove_pid-Removed_example :
    Returns
      (Removed kernel Slot.ready_slot 258 (1 ∷ 2 ∷ []))
      (remove_pid 3 kernel Slot.ready_slot 258)
remove_pid-Removed_example =
    remove_pid-Removed 3 kernel Slot.ready_slot 258 (1 ∷ 2 ∷ []) ready-Chain (refl, (refl, tt))
      two-Distinct (omega arith)

-- 25 milliseconds are three ticks: behind 3 and 4, before 5.
sleep-inserts_example :
    Returns
      (λ k'.
        (qs : List ℕ) × Chain k' Slot.sleep_slot qs
        × (times k' 0 qs ≡ insert_time 6 ((25 + 9) / 10) (times kernel 0 (3 ∷ 4 ∷ 5 ∷ [])))
        × ((k'.pcb_table 6).state ≡ State.sleeping))
      (sleep kernel 6 25)
unfolding queue_fuel
sleep-inserts_example =
    sleep-inserts kernel 6 25 (3 ∷ 4 ∷ 5 ∷ []) sleep-Chain three-Distinct (refl, (refl, (refl, tt)))
      (omega arith, (omega arith, (omega arith, tt))) (omega arith) (omega arith) (omega arith)

-- After one tick 3 and 4 are ready, and 5 sleeps on.
tick-wakes_example :
    Returns
      (λ k'.
        Chain k' Slot.ready_slot (1 ∷ 2 ∷ 3 ∷ 4 ∷ [])
        × Chain k' Slot.sleep_slot (5 ∷ [])
        × (times k' 0 (5 ∷ []) ≡ map one_less (times kernel (total kernel (3 ∷ 4 ∷ [])) (5 ∷ []))))
      (tick kernel)
unfolding queue_fuel
tick-wakes_example =
    tick-wakes kernel (1 ∷ 2 ∷ []) (3 ∷ 4 ∷ []) 5 [] ready-Chain sleep-Chain all-Distinct
      (refl, (refl, tt)) (omega arith) (omega arith) (omega arith) (omega arith)

-- Without 5, the last sleeper is woken.
abbrev all_due : Kernel
all_due = record kernel { pcb_table = update table 4 (sleeper none 0) }

all_due_ready : Chain all_due Slot.ready_slot (1 ∷ 2 ∷ [])
unfolding read_slot
all_due_ready = (refl, (refl, refl))

all_due_sleep : Chain all_due Slot.sleep_slot (3 ∷ 4 ∷ [])
unfolding read_slot
all_due_sleep = (refl, (refl, refl))

tick-faults_example : tick all_due ≡ fault
unfolding queue_fuel
tick-faults_example =
    tick-faults all_due (1 ∷ 2 ∷ []) 3 (4 ∷ []) all_due_ready all_due_sleep
      ((refl, (refl, (refl, tt))), ((refl, (refl, tt)), ((refl, tt), (tt, tt)))) (refl, (refl, tt))
      (omega arith) (omega arith)

-- The signals 0 and 3 are pending, and those from 2 on are let through.
deliver_signal-IsHighest_example :
    ((9 < 2 ^ 2) × (deliver_signal image kernel 6 ≡ kernel))
    ⊎ ((s : ℕ) × IsHighest s 9 × (2 ≤ s) × Taken kernel 6 s (deliver_signal image kernel 6))
deliver_signal-IsHighest_example =
    deliver_signal-IsHighest image kernel 6 2 (omega arith) refl (omega arith)

sigreturn-deliver_example :
    let k1 = deliver image kernel 6 3 in
    let sp = (k1.pcb_table 6).esp in
    let k2 = sigreturn k1 6 0x200000 in
    (read_word k1.memory (add32 sp 48) ≡ 0x5000)
    × (read_word k1.memory (add32 sp 56) ≡ 0x200000)
    × ((k2.pcb_table 6).esp ≡ 0x200000)
    × ((k2.pcb_table 6).hi_sig ≡ 2 ^ 32 - 2 ^ 2)
    × ((k2.pcb_table 6).irc ≡ 0)
sigreturn-deliver_example =
    sigreturn-deliver image kernel 6 3
      (record { esp = omega arith; hi_sig = omega arith; irc = omega arith; handler = omega arith })

typed-IsRing : IsRing typed
typed-IsRing = record { head = omega arith; size = omega arith }

insert_char-enqueue_example :
    (((insert_char typed 99).0, contents (insert_char typed 99).1) ≡ enqueue 99 (contents typed))
    × IsRing (insert_char typed 99).1
insert_char-enqueue_example = insert_char-enqueue typed 99 typed-IsRing

remove_char-pops_example :
    (remove_char typed ≡ (some 97, advance typed))
    × (contents (advance typed) ≡ 98 ∷ 10 ∷ [])
    × IsRing (advance typed)
remove_char-pops_example = remove_char-pops typed 97 (98 ∷ 10 ∷ []) typed-IsRing refl

buf_copy-Fed_example : Returns (Fed kernel 6 (97 ∷ 98 ∷ 10 ∷ [])) (buf_copy kernel)
buf_copy-Fed_example = buf_copy-Fed kernel 6 refl typed-IsRing (omega arith) (omega arith)

-- A heap of one region with a block for a node.
abbrev pub fresh_heap : Heap
unfolding kmeminit
fresh_heap = kmeminit 0x10000 empty_heap

abbrev used_heap : Heap
unfolding kmeminit take_node
used_heap = (take_node fresh_heap 0x10000 32).1

allocated : kmalloc fresh_heap 20 ≡ ok (0x10010, used_heap)
unfolding kmalloc kmeminit list_fuel take_node
allocated = refl

-- The tree of the PIDs 256, 257 and 258; the block is the node of 256.
abbrev tree : Tree
tree = node 0x3000 257 1 (node 0x10010 256 0 leaf leaf 1) (node 0x3200 258 2 leaf leaf 1) 2

tree-IsOrdered : IsOrdered tree
tree-IsOrdered = ((tt, omega arith, tt), (tt, omega arith, tt), (tt, tt, tt, tt), (tt, tt, tt, tt))

insert-Grown_example : Returns (λ (t', h'). Grown tree 259 3 t') (insert fresh_heap tree 259 3)
insert-Grown_example =
    insert-Grown fresh_heap used_heap 0x10010 259 3 allocated (omega arith) tree
      ((
        refl,
        omega arith,
        omega arith,
        (refl, omega arith, omega arith, tt, tt),
        (refl, omega arith, omega arith, tt, tt),
      ))
      tree-IsOrdered ((tt, omega arith, tt), omega arith, (tt, omega arith, tt)) (omega arith)

lookup-delete_example :
    Returns
      (λ (t', heap').
        IsOrdered t' × ((x : ℕ) → lookup t' x ≡ (if 256 == x then none else lookup tree x)))
      (delete used_heap tree 256)
unfolding victim kfree kmeminit take_node list_fuel
lookup-delete_example = lookup-delete used_heap tree 256 tree-IsOrdered (_, refl)

rotate_right-loses_example :
    Returns
      (λ t. (q : ℕ) → lookup t q ≡ (if ltb q 257 then lookup tree q else none))
      (rotate_right tree)
rotate_right-loses_example =
    rotate_right-loses 0x3000 257 1 0x10010 256 0 leaf leaf (node 0x3200 258 2 leaf leaf 1) 1 2
      tree-IsOrdered

-- `syssend` of three bytes, with its arguments twelve bytes above the stack pointer.
abbrev frame : ContextFrame
frame = record {
  edi = 1;
  esi = 2;
  ebp = 3;
  esp = 4;
  ebx = 5;
  edx = 6;
  ecx = 7;
  eax = 8;
  iret_eip = 0x1234;
  iret_cs = 8;
  eflags = 0x3200;
}

enter-trap_of_example :
    let (request, k') =
      enter kernel 1 (trap_of (λ a. 0) 0x2000c 0x20000 frame (Stub.syssend 258 0x7000 3)) in
    (request ≡ some Request.send_req) × Arguments k' 1 0 (258 ∷ 0x7000 ∷ 3 ∷ [])
unfolding call_of
enter-trap_of_example =
    enter-trap_of kernel 1 (λ a. 0) 0x2000c 0x20000 12 frame (Stub.syssend 258 0x7000 3) refl
      (omega arith) (omega arith, (omega arith, (omega arith, tt))) (omega arith)

-- The idle process is the first one.
abbrev idle_first : Kernel
idle_first = record kernel { idle = some 1 }

idle_first-Chain : Chain idle_first Slot.ready_slot (1 ∷ 2 ∷ [])
unfolding read_slot
idle_first-Chain = (refl, (refl, refl))

choose-pick_example :
    Returns
      (λ (chosen, k'). (chosen ≡ some 2) × Chain k' Slot.ready_slot (1 ∷ []))
      (choose idle_first)
unfolding queue_fuel
choose-pick_example =
    choose-pick idle_first 1 (1 ∷ 2 ∷ []) refl idle_first-Chain two-Distinct (omega arith)

abbrev nothing_typed : Kernel
nothing_typed = record kernel { driver = record typed { size = 0 } }

keyboard_read-aborts_example : keyboard_read nothing_typed 6 0x8000 0 ≡ aborted
keyboard_read-aborts_example = keyboard_read-aborts nothing_typed 6 0x8000 refl refl refl
