-- ===== src/Queue.antt =====
-- The queues of PCBs, which share the field `next`: `next` and `ready` of c/disp.c, and the four
-- queue functions of c/msg.c.
pub mod Chain
pub mod Ready
pub mod Remove
pub mod Rest
use cs415_a.Base.{
  ℕ, zero, suc, ◌==◌, if◌then◌else◌, Option, none, some, Run, ok, out_of_fuel, ◌>>=◌,
}
use cs415_a.Kernel.{Kernel, State, Slot, set_state, read_slot, write_slot}

-- A round for each PCB of the table, and one for the test that ends the loop.
unfoldable pub queue_fuel : ℕ
queue_fuel = 257

-- `while (*end) end = &(*end)->next;`
unfoldable pub find_end : ℕ → Kernel → Slot → Run Slot
unfolding read_slot
find_end zero k s = out_of_fuel
find_end (suc fuel) k s = elim (read_slot k s) [
  | none ↦ ok s
  | some p ↦ find_end fuel k (Slot.next_slot p)
]

-- `ready_queue = next->next; next->next = NULL;`
unfoldable pub unlink_head : Kernel → ℕ → Kernel
unfolding write_slot
unlink_head k p =
    write_slot (write_slot k Slot.ready_slot (k.pcb_table p).next) (Slot.next_slot p) none

-- Returns the head of the ready queue, or NULL.
unfoldable pub next : Kernel → Option ℕ × Kernel
unfolding unlink_head
next k = elim k.ready_queue [ none ↦ (none, k) | some p ↦ (some p, unlink_head k p) ]

-- `*end = p; p->next = NULL; p->state = READY;`
unfoldable pub link_ready : Kernel → Slot → ℕ → Kernel
unfolding write_slot
link_ready k end p =
    set_state (write_slot (write_slot k end (some p)) (Slot.next_slot p) none) p State.ready

unfoldable pub ready_fuel : ℕ → Kernel → ℕ → Run Kernel
unfolding find_end link_ready
ready_fuel fuel k p = find_end fuel k Slot.ready_slot >>= λ end. ok (link_ready k end p)

unfoldable pub ready : Kernel → ℕ → Run Kernel
unfolding ready_fuel queue_fuel
ready k p = ready_fuel queue_fuel k p

-- The loop of `recv_queue_remove` and `send_queue_remove`: the process with the PID is unlinked.
-- Its own `next` stays as it was.
unfoldable pub remove_pid : ℕ → Kernel → Slot → ℕ → Run (Option ℕ × Kernel)
unfolding read_slot write_slot
remove_pid zero k s pid = out_of_fuel
remove_pid (suc fuel) k s pid = elim (read_slot k s) [
  | none ↦ ok (none, k)
  | some p ↦
      let rest = remove_pid fuel k (Slot.next_slot p) pid in
      if (k.pcb_table p).pid == pid then ok (some p, write_slot k s (k.pcb_table p).next) else rest
]

unfoldable pub recv_queue_remove : Kernel → (p dest_pid : ℕ) → Run (Option ℕ × Kernel)
unfolding remove_pid queue_fuel
recv_queue_remove k p dest_pid = remove_pid queue_fuel k (Slot.receivers_slot p) dest_pid

unfoldable pub send_queue_remove : Kernel → (p src_pid : ℕ) → Run (Option ℕ × Kernel)
unfolding remove_pid queue_fuel
send_queue_remove k p src_pid = remove_pid queue_fuel k (Slot.senders_slot p) src_pid

-- Appends to the queue and sets the state; `next` of the appended process stays as it was.
unfoldable pub link_blocked : Kernel → Slot → ℕ → State → Kernel
unfolding write_slot
link_blocked k end p state = set_state (write_slot k end (some p)) p state

unfoldable pub append_fuel : ℕ → Kernel → Slot → ℕ → State → Run Kernel
unfolding find_end link_blocked
append_fuel fuel k s p state = find_end fuel k s >>= λ end. ok (link_blocked k end p state)

unfoldable pub recv_queue_insert : Kernel → (p receiver : ℕ) → Run Kernel
unfolding append_fuel queue_fuel
recv_queue_insert k p receiver =
    append_fuel queue_fuel k (Slot.receivers_slot p) receiver State.receiving

unfoldable pub send_queue_insert : Kernel → (p sender : ℕ) → Run Kernel
unfolding append_fuel queue_fuel
send_queue_insert k p sender = append_fuel queue_fuel k (Slot.senders_slot p) sender State.sending
