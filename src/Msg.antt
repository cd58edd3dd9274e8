-- ===== src/Msg.antt =====
-- c/msg.c: messages between processes. The arguments of `syssend` are the PID of the receiver, the
-- buffer and its length; those of `sysrecv` the address of the sender's PID, the buffer, its length.
pub mod Transfer
pub mod Meet
pub mod Block
pub mod Send
pub mod Receive
use cs415_a.Base.{
  ℕ, zero, suc, Bool, ◌&&◌, ◌==◌, ◌!=◌, if◌then◌else◌, none, some, update, Run, ok, ◌>>=◌,
}
use cs415_a.Base.Word.{add32, lt_int, minus}
use cs415_a.Kernel.{
  Kernel, State, state_number, set_irc, set_state, write_slot, Slot, read_word, store_word, arg,
}
use cs415_a.PidMap.{lookup}
use cs415_a.Queue.{
  ready, recv_queue_remove, send_queue_remove, recv_queue_insert, send_queue_insert,
}

-- SYS_SR_NO_PID and SYS_SR_SELF
abbrev pub sr_no_pid : ℕ
sr_no_pid = minus 1

abbrev pub sr_self : ℕ
sr_self = minus 2

-- `_bcopy` of c/startup.S: `rep movsb`, upwards
unfoldable pub bcopy : (n : ℕ) → (ℕ → ℕ) → (src dest : ℕ) → ℕ → ℕ
bcopy zero m src dest = m
bcopy (suc n) m src dest = bcopy n (update m dest (m src)) (add32 src 1) (add32 dest 1)

abbrev pub min_int : ℕ → ℕ → ℕ
min_int a b = if lt_int a b then a else b

unfoldable pub transfer_length : Kernel → (src dest : ℕ) → ℕ
unfolding arg
transfer_length k src dest = min_int (arg k src 2) (arg k dest 2)

unfoldable pub send_receive_transfer : Kernel → (src dest : ℕ) → Kernel
unfolding arg bcopy store_word transfer_length
send_receive_transfer k src dest =
    let len = transfer_length k src dest in
    let src_pid = arg k dest 0 in
    let copied = record k { memory = bcopy len k.memory (arg k src 1) (arg k dest 1) } in
    let named = store_word (if len != 0 then copied else k) src_pid (k.pcb_table src).pid in
    set_irc (set_irc named dest len) src len

abbrev pub ready_both : Kernel → (first second : ℕ) → Run Kernel
ready_both k first second = ready k first >>= λ k'. ready k' second

-- `dest_p->state == RECEIVING && !(*src_pid)`
unfoldable pub accepts_any : Kernel → ℕ → Bool
unfolding arg read_word state_number
accepts_any k dest =
    (state_number (k.pcb_table dest).state == state_number State.receiving)
    && (read_word k.memory (arg k dest 0) == 0)

-- What `send` does when the destination is not in the sender's receiver queue.
unfoldable pub send_open : Kernel → (p dest : ℕ) → Run Kernel
unfolding accepts_any send_receive_transfer
send_open k p dest =
    if accepts_any k dest
    then ready_both (send_receive_transfer k p dest) p dest
    else send_queue_insert k dest p

unfoldable pub send : Kernel → (p dest_pid : ℕ) → Run Kernel
unfolding send_open
send k p dest_pid =
    if (k.pcb_table p).pid == dest_pid
    then ready (set_irc k p sr_self) p
    else elim (lookup k.pid_map dest_pid) [
      | none ↦ ready (set_irc k p sr_no_pid) p
      | some dest ↦ recv_queue_remove k p dest_pid >>= λ (found, k'). elim found [
        | some q ↦ ready_both (send_receive_transfer k' p q) p q
        | none ↦ send_open k' p dest
      ]
    ]

-- `receive` from any process.
unfoldable pub receive_any : Kernel → (p : ℕ) → Run Kernel
unfolding send_receive_transfer write_slot
receive_any k p = elim ((k.pcb_table p).senders) [
  | none ↦ ok (set_state k p State.receiving)
  | some src ↦
      let k' = send_receive_transfer k src p in
      ready_both (write_slot k' (Slot.senders_slot p) (k'.pcb_table src).next) p src
]

-- `receive` from the process with the PID, whose PCB is `src`.
unfoldable pub receive_from : Kernel → (p src_pid src : ℕ) → Run Kernel
unfolding send_receive_transfer
receive_from k p src_pid src = send_queue_remove k p src_pid >>= λ (found, k'). elim found [
  | some q ↦ ready_both (send_receive_transfer k' q p) p q
  | none ↦ recv_queue_insert k' src p
]

-- `from` is the address that holds the sender's PID, 0 for any.
unfoldable pub receive : Kernel → (p from : ℕ) → Run Kernel
unfolding receive_any receive_from
receive k p from =
    let src_pid = read_word k.memory from in
    if (k.pcb_table p).pid == src_pid
    then ready (set_irc k p sr_self) p
    else if src_pid == 0
    then receive_any k p
    else elim (lookup k.pid_map src_pid) [
      | none ↦ ready (set_irc k p sr_no_pid) p
      | some src ↦ receive_from k p src_pid src
    ]
