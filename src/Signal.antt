-- ===== src/Signal.antt =====
-- c/signal.c: signals. A set of signals is a 32-bit mask.
pub mod Priority
use Prim.Native.Nat.{bit_and, bit_or}
use cs415_a.Base.{
  ℕ, Bool, ◌+◌, ◌-◌, ◌*◌, ◌%◌, ◌^◌, ◌||◌, ◌&&◌, not, ltb, leb, ◌==◌, ◌!=◌, if◌then◌else◌, none,
  some, update, Run, ok, aborted, ◌>>=◌,
}
use cs415_a.Base.Word.{add32, sub32, lt_int, minus}
use cs415_a.Kernel.{
  Kernel, State, state_number, num_signal, set_irc, set_pcb, write_word, store_word,
}
use cs415_a.Image.{Image}
use cs415_a.PidMap.{lookup}
use cs415_a.Queue.{ready}

-- `SIG_INT(sig)`, and the complement of a mask
abbrev pub sig_int : ℕ → ℕ
sig_int sig = 2 ^ sig

abbrev pub complement : ℕ → ℕ
complement m = 2 ^ 32 - 1 - m

-- `signal < 0 || signal >= NUM_SIGNAL`
abbrev pub bad_signal : ℕ → Bool
bad_signal sig = lt_int sig 0 || not (lt_int sig num_signal)

-- `*old_handler = …` if the pointer is not NULL
unfoldable pub store_old_handler : Kernel → (p signal old_handler : ℕ) → Kernel
unfolding store_word
store_old_handler k p signal old_handler =
    if old_handler != 0 then store_word k old_handler ((k.pcb_table p).sig_handler signal) else k

unfoldable pub install_handler : Kernel → (p signal new_handler : ℕ) → Kernel
install_handler k p signal new_handler =
    let q = k.pcb_table p in
    set_pcb k p (record q {
      sig_handler = update q.sig_handler signal new_handler;
      allowed_sig =
          if new_handler == 0
          then bit_and q.allowed_sig (complement (sig_int signal))
          else bit_or q.allowed_sig (sig_int signal);
      irc = 0;
    })

unfoldable pub register_sig_handler :
    Image → Kernel → (p signal new_handler old_handler : ℕ) → Kernel
unfolding store_old_handler install_handler
register_sig_handler image k p signal new_handler old_handler =
    let k1 = store_old_handler k p signal old_handler in
    if bad_signal signal
    then set_irc k p (minus 1)
    else if not (lt_int new_handler image.freemem)
    then set_irc k1 p (minus 2)
    else install_handler k1 p signal new_handler

-- The state of the process decides who is made ready, and with which result.
unfoldable pub notify : Kernel → (p sig_no : ℕ) → Run Kernel
unfolding state_number
notify k p sig_no =
    let s = state_number (k.pcb_table p).state in
    if s == state_number State.stopped
    then aborted
    else if ltb (state_number State.ready) s && ltb s (state_number State.waiting)
    then (ready k p >>= λ k'. ok (set_irc k' p (minus 129)))
    else if s == state_number State.waiting
    then (ready k p >>= λ k'. ok (set_irc k' p sig_no))
    else ok k

-- The result is that of the C function.
unfoldable pub signal : Kernel → (pid sig_no : ℕ) → Run (ℕ × Kernel)
unfolding notify
signal k pid sig_no = if bad_signal sig_no then ok (minus 2, k) else elim (lookup k.pid_map pid) [
  | none ↦ ok (minus 1, k)
  | some p ↦
      let q = k.pcb_table p in
      let pending =
        set_pcb k p (record q { pending_sig = bit_or q.pending_sig (sig_int sig_no) }) in
      let notified = notify pending p sig_no >>= λ k'. ok (0, k') in
      if bit_and q.allowed_sig (sig_int sig_no) != 0 then notified else ok (0, k)
]

-- One step of the search: `if (x <= bound) { n = n + k; x = x << k; }`
abbrev pub shift_if : (bound k : ℕ) → ℕ × ℕ → ℕ × ℕ
shift_if bound k (n, x) = if leb x bound then (n + k, x * 2 ^ k % 2 ^ 32) else (n, x)

unfoldable pub msb_1_pos : ℕ → ℕ
msb_1_pos x =
    let (n, y) =
      shift_if 0x3FFFFFFF 2
        (shift_if 0x0FFFFFFF 4 (shift_if 0x00FFFFFF 8 (shift_if 0x0000FFFF 16 (0, x)))) in
    if x == 0 then 32 else if leb y 0x7FFFFFFF then n + 1 else n

abbrev pub signal_to_deliver : ℕ → ℕ
signal_to_deliver pending = num_signal - msb_1_pos pending - 1

-- `p->hi_sig = (~sig_int) - (sig_int - 1)`
unfoldable pub higher_signals : ℕ → ℕ
higher_signals sig = sub32 (complement (sig_int sig)) (sig_int sig - 1)

-- sizeof(signal_frame)
abbrev pub frame_size : ℕ
frame_size = 68

-- `zeroRegisters` of c/create.c: the eight general registers of a context frame
unfoldable pub zero_registers : (ℕ → ℕ) → ℕ → ℕ → ℕ
unfolding write_word
zero_registers m a =
    let w = λ (offset : ℕ) (m' : ℕ → ℕ). write_word m' (add32 a offset) 0 in
    w 0 (w 4 (w 8 (w 12 (w 16 (w 20 (w 24 (w 28 m)))))))

-- The context frame that `iret` starts code from: EIP, CS and EFLAGS behind the registers.
unfoldable pub start_frame : Image → (ℕ → ℕ) → (a eip : ℕ) → ℕ → ℕ
unfolding write_word zero_registers
start_frame image m a eip =
    write_word (write_word (write_word (zero_registers m a) (add32 a 32) eip) (add32 a 36) image.cs)
      (add32 a 40) 0x3200

-- The signal frame at `a`, for a process with stack pointer `old_sp`.
unfoldable pub push_frame : Image → (ℕ → ℕ) → (a handler old_sp hi_sig irc : ℕ) → ℕ → ℕ
unfolding start_frame
push_frame image m a handler old_sp hi_sig irc =
    let w = λ (offset value : ℕ) (m' : ℕ → ℕ). write_word m' (add32 a offset) value in
    w 64 irc (
      w 60 hi_sig (
        w 56 old_sp (
          w 52 old_sp
            (w 48 handler (w 44 image.fake_return (start_frame image m a image.sigtramp))))))

-- The body of the test: the signal is taken from the pending ones, and its frame is pushed.
unfoldable pub deliver : Image → Kernel → (p sig_no : ℕ) → Kernel
unfolding push_frame higher_signals
deliver image k p sig_no =
    let q = k.pcb_table p in
    let frame = sub32 q.esp frame_size in
    record k {
      memory = push_frame image k.memory frame (q.sig_handler sig_no) q.esp q.hi_sig q.irc;
      pcb_table = update k.pcb_table p (record q {
        esp = frame;
        pending_sig = bit_and q.pending_sig (complement (sig_int sig_no));
        hi_sig = higher_signals sig_no;
      });
    }

unfoldable pub deliver_signal : Image → Kernel → (p : ℕ) → Kernel
unfolding deliver msb_1_pos
deliver_signal image k p =
    let q = k.pcb_table p in
    if bit_and q.pending_sig q.hi_sig != 0
    then deliver image k p (signal_to_deliver q.pending_sig)
    else k
