-- ===== src/Create.antt =====
-- c/create.c: the creation of a process, and `init_pcb_table` of c/disp.c.
pub mod Pid
pub mod Start
pub mod Frame
pub mod Fresh
use cs415_a.Base.{
  ℕ, zero, suc, ◌+◌, ◌-◌, ◌*◌, ◌/◌, ◌%◌, ◌^◌, ltb, ◌==◌, ◌!=◌, if◌then◌else◌, Option, none, some,
  Run, ok, out_of_fuel, ◌>>=◌,
}
use cs415_a.Base.Word.{add32, sub32, lt_int, minus}
use cs415_a.Heap.{kmalloc, kfree}
use cs415_a.PidMap.{Tree, leaf, insert, lookup}
use cs415_a.Kernel.{Kernel, Pcb, State, state_number, max_num_process, set_pcb, write_word}
use cs415_a.Image.{Image}
use cs415_a.Queue.{ready}
use cs415_a.Signal.{start_frame}

-- `while (!nextPid || pidMapLookup(nextPid, &pcbIndex) == OK) nextPid++;`: the PID that is free
unfoldable pub find_pid : (fuel : ℕ) → Tree → (next_pid : ℕ) → Run ℕ
find_pid zero t next_pid = out_of_fuel
find_pid (suc fuel) t next_pid =
    let rest = find_pid fuel t (add32 next_pid 1) in
    let free : Run ℕ = elim (lookup t next_pid) [ none ↦ ok next_pid | some _ ↦ rest ] in
    if next_pid == 0 then rest else free

-- A round for each entry of the map, one for the PID 0, and one for the PID that is found.
unfoldable pub pid_fuel : ℕ
pid_fuel = 258

unfoldable pub get_next_pid : Kernel → Run (ℕ × Kernel)
unfolding find_pid pid_fuel
get_next_pid k =
    find_pid pid_fuel k.pid_map k.next_pid >>= λ pid. ok (pid, record k { next_pid = add32 pid 1 })

-- The first PCB that is not in use, from index `i` on.
unfoldable pub find_pcb : (rounds i : ℕ) → (ℕ → Pcb) → Option ℕ
unfolding state_number
find_pcb zero i table = none
find_pcb (suc rounds) i table =
    let rest = find_pcb rounds (i + 1) table in
    if state_number (table i).state == state_number State.stopped then some i else rest

-- sizeof(contextFrame) and SAFETY_MARGIN
abbrev pub context_size : ℕ
context_size = 44

abbrev pub safety_margin : ℕ
safety_margin = 0x40

-- What `create` writes to the new stack.
unfoldable pub first_frame : Image → (ℕ → ℕ) → (esp func : ℕ) → ℕ → ℕ
unfolding start_frame write_word
first_frame image m esp func =
    write_word (start_frame image m esp func) (add32 esp context_size) image.sysstop

-- The assignments to the PCB.
unfoldable pub fresh_pcb : Pcb → (pid parent stack esp : ℕ) → Pcb
fresh_pcb q pid parent stack esp = record q {
  pid = pid;
  parent_pid = parent;
  stack = stack;
  esp = esp;
  next = none;
  senders = none;
  receivers = none;
  sig_handler = λ _. 0;
  pending_sig = 0;
  allowed_sig = 0;
  hi_sig = 0xFFFFFFFF;
  delta = 0;
  iargs = 0;
  irc = 0;
  opened_dv = λ _. none;
}

-- ((stack/16) + (stack%16?1:0))*16, where the division of an int rounds towards 0
abbrev pub align_int : ℕ → ℕ
align_int n =
    let size = (2 ^ 32 - n) % 2 ^ 32 in
    let up = if size % 16 != 0 then 16 else 0 in
    if lt_int n 0
    then sub32 up (size / 16 * 16)
    else (n / 16 * 16 + (if n % 16 != 0 then 16 else 0)) % 2 ^ 32

-- The case that the PCB `i` is free: the result is the new PID.
unfoldable pub start_process : Image → Kernel → (i func stack parent ptr : ℕ) → Run (ℕ × Kernel)
unfolding get_next_pid first_frame fresh_pcb
start_process image k i func stack parent ptr = do
  (pid, k1) ← get_next_pid k
  (map, heap) ← insert k1.heap k1.pid_map pid i
  let esp = add32 ptr (align_int stack)
  let k2 = record k1 { pid_map = map; heap = heap; memory = first_frame image k1.memory esp func }
  k3 ← ready (set_pcb k2 i (fresh_pcb (k2.pcb_table i) pid parent ptr esp)) i
  ok (pid, k3)

unfoldable pub create : Image → Kernel → (func stack parent : ℕ) → Run (ℕ × Kernel)
unfolding find_pcb start_process
create image k func stack parent = do
  (ptr, heap) ← kmalloc k.heap (add32 stack (safety_margin + context_size))
  let k1 = record k { heap = heap }
  let full = kfree heap ptr >>= λ heap'. ok (minus 1, record k1 { heap = heap' })
  let found : Run (ℕ × Kernel) = elim (find_pcb max_num_process 0 k.pcb_table) [
    | none ↦ full
    | some i ↦ start_process image k1 i func stack parent ptr
  ]
  if ptr != 0 then found else ok (minus 1, k1)

-- The assignments to each PCB of the table; the other fields stay as they were.
unfoldable pub clear_pcb : Pcb → Pcb
clear_pcb q = record q {
  pid = 0;
  state = State.stopped;
  next = none;
  senders = none;
  receivers = none;
  irc = 0;
  iargs = 0;
  delta = 0;
  pending_sig = 0;
  allowed_sig = 0;
}

unfoldable pub init_pcb_table : Kernel → Kernel
unfolding clear_pcb
init_pcb_table k = record k {
  pcb_table = λ i. if ltb i max_num_process then clear_pcb (k.pcb_table i) else k.pcb_table i;
  next_pid = 1;
  ready_queue = none;
  idle = none;
  pid_map = leaf;
}
