-- ===== src/Dispatch.antt =====
-- c/disp.c: the dispatcher. What a process does until it enters the kernel is outside: a `Trap`
-- says how it came back, from `contextswitch` of c/ctsw.c.
pub mod Sigreturn
pub mod Choose
pub mod Links
pub mod Turn
pub mod Rounds
pub mod Timer
pub mod Unblock
pub mod Release
pub mod Shut
pub mod Cleanup
use cs415_a.Base.{
  ℕ, zero, suc, ◌+◌, ◌-◌, ◌^◌, Bool, true, false, ◌==◌, ◌!=◌, if◌then◌else◌, Option, none, some,
  List, [], ◌∷◌, Run, ok, out_of_fuel, ◌>>=◌,
}
use cs415_a.Base.Word.{add32, sub32, minus}
use cs415_a.Heap.{kfree}
use cs415_a.PidMap.{delete}
use cs415_a.Kernel.{Kernel, State, num_fd, set_irc, set_state, set_pcb, arg, read_word, store_word}
use cs415_a.Image.{Image}
use cs415_a.Queue.{next, ready, queue_fuel}
use cs415_a.Sleep.{tick, sleep}
use cs415_a.Msg.{send, receive, sr_no_pid}
use cs415_a.Signal.{register_sig_handler, signal, deliver_signal, frame_size}
use cs415_a.Device.{di_open, di_close, di_write, di_read, di_ioctl, is_none}
use cs415_a.Keyboard.Calls.{Drv}
use cs415_a.Create.{create}
use cs415_a.Processor.{end_of_intr}

-- The stack pointer, `%eax` and the memory at the time of the interrupt; it is the timer's, or
-- that of a system call.
pub record Trap : Type 0 where
  pub timer : Bool
  pub esp : ℕ
  pub eax : ℕ
  pub memory : ℕ → ℕ

-- `request_type`
pub data Request : Type 0 where
  time_int create_req yield stop get_pid get_p_pid puts send_req recv sys_timer sleep_req : Request
  sighandler sigreturn_req kill sigwait open_req close write read io_ctl : Request

-- The request of a number: none for a number that no case of the switch names.
unfoldable pub request_of : ℕ → Option Request
request_of n =
    if n == 0
    then some Request.time_int
    else if n == 1
    then some Request.create_req
    else if n == 2
    then some Request.yield
    else if n == 3
    then some Request.stop
    else if n == 4
    then some Request.get_pid
    else if n == 5
    then some Request.get_p_pid
    else if n == 6
    then some Request.puts
    else if n == 7
    then some Request.send_req
    else if n == 8
    then some Request.recv
    else if n == 9
    then some Request.sys_timer
    else if n == 10
    then some Request.sleep_req
    else if n == 11
    then some Request.sighandler
    else if n == 12
    then some Request.sigreturn_req
    else if n == 13
    then some Request.kill
    else if n == 14
    then some Request.sigwait
    else if n == 15
    then some Request.open_req
    else if n == 16
    then some Request.close
    else if n == 17
    then some Request.write
    else if n == 18
    then some Request.read
    else if n == 19
    then some Request.io_ctl
    else none

-- `context->eax = p->irc`, which the process finds when it goes on
unfoldable pub return_value : Kernel → (p : ℕ) → Kernel
unfolding store_word
return_value k p = store_word k (add32 (k.pcb_table p).esp 28) (k.pcb_table p).irc

-- `contextswitch` from the interrupt on. The timer keeps `%eax`, a system call the address of its
-- arguments.
unfoldable pub enter : Kernel → (p : ℕ) → Trap → Option Request × Kernel
unfolding read_word request_of
enter k p t =
    let k1 = record k { memory = t.memory } in
    let q = k1.pcb_table p in
    if t.timer
    then (some Request.sys_timer, set_pcb k1 p (record q { esp = t.esp; irc = t.eax }))
    else (
      request_of (read_word t.memory (add32 t.esp 44)),
      set_pcb k1 p (record q { esp = t.esp; iargs = read_word t.memory (add32 t.esp 48) }),
    )

-- `while (p->senders) { … ready(sender); }`
unfoldable pub release_senders : (fuel : ℕ) → Kernel → (p : ℕ) → Run Kernel
release_senders zero k p = out_of_fuel
release_senders (suc fuel) k p = elim ((k.pcb_table p).senders) [
  | none ↦ ok k
  | some s ↦
      let k1 = set_pcb k p (record (k.pcb_table p) { senders = (k.pcb_table s).next }) in
      ready (set_irc k1 s sr_no_pid) s >>= λ k2. release_senders fuel k2 p
]

unfoldable pub release_receivers : (fuel : ℕ) → Kernel → (p : ℕ) → Run Kernel
release_receivers zero k p = out_of_fuel
release_receivers (suc fuel) k p = elim ((k.pcb_table p).receivers) [
  | none ↦ ok k
  | some r ↦
      let k1 = set_pcb k p (record (k.pcb_table p) { receivers = (k.pcb_table r).next }) in
      ready (set_irc k1 r sr_no_pid) r >>= λ k2. release_receivers fuel k2 p
]

unfoldable pub close_all : (rounds fd : ℕ) → Kernel → (p : ℕ) → Kernel
close_all zero fd k p = k
close_all (suc rounds) fd k p =
    close_all rounds (fd + 1)
      (if is_none ((k.pcb_table p).opened_dv fd) then k else (di_close k p fd).1) p

-- "Unblock all blocked trying to send to/ receive from this process"
unfoldable pub release_all : Kernel → (p : ℕ) → Run Kernel
unfolding release_senders release_receivers queue_fuel
release_all k p = release_senders queue_fuel k p >>= λ k1. release_receivers queue_fuel k1 p

unfoldable pub cleanup : Kernel → (p : ℕ) → Run Kernel
unfolding release_all close_all
cleanup k p = do
  k2 ← release_all k p
  let k3 = close_all num_fd 0 k2 p
  heap ← kfree k3.heap (k3.pcb_table p).stack
  let stopped = record (k3.pcb_table p) { next = none; stack = 0; state = State.stopped }
  let k4 = set_pcb (record k3 { heap = heap }) p stopped
  (map, heap') ← delete heap k4.pid_map (k4.pcb_table p).pid
  ok (record k4 { pid_map = map; heap = heap' })

-- SIGRETURN: `old_sp` is the argument of `syssigreturn`.
unfoldable pub sigreturn : Kernel → (p old_sp : ℕ) → Kernel
unfolding read_word
sigreturn k p old_sp =
    let frame = sub32 old_sp frame_size in
    set_pcb k p (record (k.pcb_table p) {
      esp = old_sp;
      hi_sig = read_word k.memory (add32 frame 60);
      irc = read_word k.memory (add32 frame 64);
    })

-- KILL: the result of `signal` as an error number.
abbrev pub kill_result : ℕ → ℕ
kill_result rc = if rc == minus 1 then minus 33 else if rc == minus 2 then minus 12 else 0

-- `ready(to_ready)` if the case set it to `p`
abbrev pub then_ready : (p : ℕ) → Run Kernel → Run Kernel
then_ready p r = r >>= λ k. ready k p

-- A read or a write that the driver blocked takes a state, any other is ready.
abbrev pub after_io : (p : ℕ) → State → Drv × Kernel → Run Kernel
after_io p s (Drv.block, k) = ok (set_state k p s)
after_io p s (Drv.done, k) = ready k p
after_io p s (Drv.error, k) = ready k p

-- The cases of the switch but TIME_INT, with the `ready(to_ready)` behind it.
unfoldable pub handle : Image → Kernel → (p : ℕ) → Request → Run Kernel
unfolding arg read_word cleanup sigreturn end_of_intr
handle image k p Request.time_int = ok k
handle image k p Request.create_req = then_ready p (
    create image k (arg k p 0) (arg k p 1) (k.pcb_table p).pid >>= λ (pid, k').
    ok (set_irc k' p pid))
handle image k p Request.yield = ready k p
handle image k p Request.stop = cleanup k p
handle image k p Request.get_pid = ready (set_irc k p (k.pcb_table p).pid) p
handle image k p Request.get_p_pid = ready (set_irc k p (k.pcb_table p).parent_pid) p
handle image k p Request.puts = ready (record k { printed = arg k p 0 ∷ k.printed }) p
handle image k p Request.send_req = send k p (arg k p 0)
handle image k p Request.recv = receive k p (arg k p 0)
handle image k p Request.sys_timer =
    then_ready p (tick k >>= λ k'. ok (record k' { ports = end_of_intr k'.ports }))
handle image k p Request.sleep_req = sleep k p (arg k p 0)
handle image k p Request.sighandler =
    ready (register_sig_handler image k p (arg k p 0) (arg k p 1) (arg k p 2)) p
handle image k p Request.sigreturn_req = ready (sigreturn k p (arg k p 0)) p
handle image k p Request.kill =
    then_ready p
      (signal k (arg k p 0) (arg k p 1) >>= λ (rc, k'). ok (set_irc k' p (kill_result rc)))
handle image k p Request.sigwait = ok (set_state k p State.waiting)
handle image k p Request.open_req = ready (di_open k p (arg k p 0)).1 p
handle image k p Request.close = ready (di_close k p (arg k p 0)).1 p
handle image k p Request.write =
    after_io p State.writing (di_write k p (arg k p 0) (arg k p 1) (arg k p 2))
handle image k p Request.read =
    di_read k p (arg k p 0) (arg k p 1) (arg k p 2) >>= after_io p State.reading
handle image k p Request.io_ctl =
    ready (di_ioctl k p (arg k p 0) (arg k p 1) (read_word k.memory (arg k p 2))).1 p

-- The second `next`, when the first process was the idle one.
unfoldable pub choose_other : (idle : ℕ) → Option ℕ × Kernel → Run (Option ℕ × Kernel)
choose_other idle (none, k) = ok (some idle, k)
choose_other idle (some q, k) = ready k idle >>= λ k'. ok (some q, k')

-- What `next` returned, and its kernel.
unfoldable pub choose_first : (idle : Option ℕ) → Option ℕ × Kernel → Run (Option ℕ × Kernel)
unfolding choose_other
choose_first idle (none, k) = ok (none, k)
choose_first none (some p, k) = ok (some p, k)
choose_first (some i) (some p, k) = if p == i then choose_other i (next k) else ok (some p, k)

-- The choice of the next process: the idle process runs only if no other is ready.
unfoldable pub choose : Kernel → Run (Option ℕ × Kernel)
unfolding choose_first
choose k = choose_first k.idle (next k)

-- The top of the loop: a signal is delivered, and the process runs.
unfoldable pub start : Image → Kernel → (p : ℕ) → Kernel
unfolding deliver_signal
start image k p = set_state (deliver_signal image k p) p State.running

-- From the switch to the bottom of the loop: the process that is chosen next.
unfoldable pub serve : Image → Kernel → (p : ℕ) → Option Request → Run (Option ℕ × Kernel)
unfolding handle choose
serve image k p none = choose k
serve image k p (some r) = handle image k p r >>= choose

-- The loop from `request = contextswitch(p)` on, until the traps are used up, with `p` running, or
-- no process is ready. TIME_INT goes back to the process at once.
unfoldable pub run : Image → Kernel → (p : ℕ) → List Trap → Run (Option ℕ × Kernel)
unfolding return_value enter serve start
run image k p [] = ok (some p, k)
run image k p (t ∷ ts) =
    let (request, k1) = enter (return_value k p) p t in
    let again = run image k1 p ts in
    let served = serve image k1 p request >>= λ (chosen, k2). elim chosen [
      | none ↦ ok (none, k2)
      | some q ↦ run image (start image k2 q) q ts
    ] in
    elim request [ some Request.time_int ↦ again | _ ↦ served ]

unfoldable pub dispatch : Image → Kernel → List Trap → Run (Option ℕ × Kernel)
unfolding next start run
dispatch image k ts =
    let (first, k1) = next k in
    elim first [ none ↦ ok (none, k1) | some p ↦ run image (start image k1 p) p ts ]
