-- ===== src/Msg/Block.antt =====
-- A process that blocks at the end of a queue of senders or receivers of c/msg.c.

use cs415_a.Base.{
  ℕ, ◌<◌, ◌≡◌, ◌∙◌, refl, false, ==_refl, none, some, List, [], ◌∷◌, ◌++◌, length, ok, Returns,
  if◌then◌else◌,
}
use cs415_a.Kernel.{Kernel, State, Slot, read_slot, write_slot}
use cs415_a.Kernel.Slots.{
  slot_eq, slot_eq_refl, slot_eq_comm, read-write_slot, read_slot-set_pcb, SameData, SameData-trans,
  SameData-write_slot, SameData-set_state,
}
use cs415_a.Queue.{queue_fuel, append_fuel, link_blocked}
use cs415_a.Queue.Chain.{
  Chain, Apart, Apart-head, Distinct, last_slot, last_slot-ne, Chain-append, find_end_lem,
}
use cs415_a.Msg.Meet.{memory-write_slot}

-- The process `p` waits in the state `st` at the end of the queue at `at`.
pub record Blocked (k : Kernel) (at : Slot) (p : ℕ) (st : State) (ss : List ℕ) (k' : Kernel)
    : Type 0 where
  pub queue : Chain k' at (ss ++ (p ∷ []))
  pub state : (k'.pcb_table p).state ≡ st
  pub memory : k'.memory ≡ k.memory
  pub data_kept : (i : ℕ) → SameData (k'.pcb_table i) (k.pcb_table i)

module _ (k : Kernel) (at : Slot) (p : ℕ) (st : State) (ss : List ℕ)
    (head : (i : ℕ) → slot_eq (Slot.next_slot i) at ≡ false) (c : Chain k at ss) (d : Distinct ss)
    (a : Apart (Slot.next_slot p) ss) (unlinked : read_slot k (Slot.next_slot p) ≡ none)
    (h : length ss < queue_fuel) where
  w : Slot
  w = last_slot at ss

  k3 : Kernel
  k3 = link_blocked k w p st

  read-k3 : (t : Slot) → read_slot k3 t ≡ (if slot_eq w t then some p else read_slot k t)
  unfolding k3 link_blocked
  read-k3 t =
      let k1 = write_slot k w (some p) in
      read_slot-set_pcb k1 p (record (k1.pcb_table p) { state = st }) t
        (record { next = refl; senders = refl; receivers = refl })
      ∙ read-write_slot k w t (some p)

  append-k3 : append_fuel queue_fuel k at p st ≡ ok k3
  unfolding k3 w append_fuel
  append-k3 = rw (find_end_lem queue_fuel k at ss c h) refl

  Blocked-k3 : Blocked k at p st ss k3
  unfolding w k3 link_blocked
  Blocked-k3 = record {
    queue =
        Chain-append k k3 at p ss (λ t e f. read-k3 t ∙ rw e refl)
          (read-k3 w ∙ rw (slot_eq_refl w) refl)
          (read-k3 (Slot.next_slot p)
            ∙ rw
                (last_slot-ne at (Slot.next_slot p) ss (slot_eq_comm at (Slot.next_slot p) ∙ head p)
                  a)
                unlinked)
          (Apart-head at head ss) d a (head p) c;
    state = rw (==_refl p) refl;
    memory = memory-write_slot k w (some p);
    data_kept = λ i.
        SameData-trans (SameData-set_state (write_slot k w (some p)) p i st)
          (SameData-write_slot k w (some p) i);
  }

  pub append_fuel-Blocked : Returns (Blocked k at p st ss) (append_fuel queue_fuel k at p st)
  append_fuel-Blocked = (k3, append-k3, Blocked-k3)
