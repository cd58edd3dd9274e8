-- ===== src/Sleep.antt =====
-- c/sleep.c: the sleep device. The list holds the time left of each process less that of the one
-- before it, in ticks.
pub mod Times
pub mod Insert
pub mod Wake
pub mod Tick
pub mod Fault
pub mod Ports
use cs415_a.Base.{
  ℕ, zero, suc, ◌+◌, ◌/◌, ◌%◌, ◌^◌, leb, ◌==◌, ◌!=◌, if◌then◌else◌, Option, none, some, Run, ok,
  fault, out_of_fuel, ◌>>=◌,
}
use cs415_a.Base.Word.{sub32}
use cs415_a.Kernel.{Kernel, State, Slot, set_state, set_irc, set_delta, read_slot, write_slot}
use cs415_a.Queue.{ready, queue_fuel}

abbrev pub time_slice_ms : ℕ
time_slice_ms = 10

-- `p->irc = 0; sleep_list = p->next;`
unfoldable pub pop_sleeper : Kernel → (p : ℕ) → Kernel
unfolding write_slot
pop_sleeper k p = write_slot (set_irc k p 0) Slot.sleep_slot (k.pcb_table p).next

-- `while (sleep_list->delta == 0) …`: the head is read through `sleep_list`, NULL or not.
unfoldable pub wake : ℕ → Kernel → Run Kernel
unfolding pop_sleeper
wake zero k = out_of_fuel
wake (suc fuel) k = elim k.sleep_list [
  | none ↦ fault
  | some p ↦
      let woken = ready (pop_sleeper k p) p >>= λ k'. wake fuel k' in
      if (k.pcb_table p).delta == 0 then woken else ok k
]

unfoldable pub tick_fuel : ℕ → Kernel → Run Kernel
unfolding wake
tick_fuel fuel k = elim k.sleep_list [
  | none ↦ ok k
  | some p ↦ wake fuel (set_delta k p (sub32 (k.pcb_table p).delta 1))
]

unfoldable pub tick : Kernel → Run Kernel
unfolding tick_fuel queue_fuel
tick k = tick_fuel queue_fuel k

-- milliseconds, rounded up to ticks
unfoldable pub ticks : ℕ → ℕ
ticks ms = ms / time_slice_ms + (if ms % time_slice_ms != 0 then 1 else 0)

-- `while (*next && (*next)->delta <= delta) …`: where to insert, and the delta left there
unfoldable pub find_delta : ℕ → Kernel → Slot → ℕ → Run (Slot × ℕ)
unfolding read_slot
find_delta zero k s delta = out_of_fuel
find_delta (suc fuel) k s delta = elim (read_slot k s) [
  | none ↦ ok (s, delta)
  | some p ↦
      let d = (k.pcb_table p).delta in
      let rest = find_delta fuel k (Slot.next_slot p) (sub32 delta d) in
      if leb d delta then rest else ok (s, delta)
]

-- `if (p->next) p->next->delta -= delta;`
unfoldable pub reduce_delta : Kernel → Option ℕ → (delta : ℕ) → Kernel
reduce_delta k none delta = k
reduce_delta k (some q) delta = set_delta k q (sub32 (k.pcb_table q).delta delta)

-- The assignments behind the loop.
unfoldable pub insert_sleeper : Kernel → (p : ℕ) → Slot → (delta : ℕ) → Kernel
unfolding read_slot write_slot reduce_delta
insert_sleeper k p s delta =
    let after = read_slot k s in
    let k1 = set_delta (write_slot k (Slot.next_slot p) after) p delta in
    set_state (write_slot (reduce_delta k1 after delta) s (some p)) p State.sleeping

unfoldable pub sleep_fuel : ℕ → Kernel → (p milliseconds : ℕ) → Run Kernel
unfolding ticks find_delta insert_sleeper
sleep_fuel fuel k p milliseconds =
    let inserted = (do
      (s, delta) ← find_delta fuel k Slot.sleep_slot (ticks milliseconds)
      ok (insert_sleeper k p s delta)) in
    if ticks milliseconds != 0 then inserted else ready k p

unfoldable pub sleep : Kernel → (p milliseconds : ℕ) → Run Kernel
unfolding sleep_fuel queue_fuel
sleep k p milliseconds = sleep_fuel queue_fuel k p milliseconds
