-- ===== src/Queue/Ready.antt =====
-- The ready queue: `next` and `ready` of c/disp.c.
use cs415_a.Base.{
  ℕ, ◌<◌, false, if◌then◌else◌, none, some, List, [], ◌∷◌, ◌++◌, length, ◌≡◌, ◌∙◌, refl, ap, arith,
  ok, Returns, ==_refl,
}
use cs415_a.Kernel.{Kernel, State, Slot, read_slot, write_slot}
use cs415_a.Kernel.Slots.{
  slot_eq, slot_eq_comm, slot_eq_refl, read-write_slot, read_slot-set_pcb, SameData, SameData-trans,
  SameData-write_slot, SameData-set_state,
}
use cs415_a.Queue.{next, unlink_head, ready, link_ready, queue_fuel}
use cs415_a.Queue.Chain.{
  Chain, Apart, Distinct, Disjoint, Apart-head, last_slot, last_slot-ne, find_end_lem, Chain-frame,
  Chain-move, SameNext-of_Apart, SameNext-of_Disjoint, Chain-append,
}

pub read-link_ready :
    (k : Kernel) (w t : Slot) (p : ℕ)
    → read_slot (link_ready k w p) t ≡ (
        if slot_eq (Slot.next_slot p) t
        then none
        else if slot_eq w t
        then some p
        else read_slot k t)
unfolding link_ready
read-link_ready k w t p =
    let k1 = write_slot k w (some p) in
    let k2 = write_slot k1 (Slot.next_slot p) none in
    read_slot-set_pcb k2 p (record (k2.pcb_table p) { state = State.ready }) t
      (record { next = refl; senders = refl; receivers = refl })
    ∙ read-write_slot k1 (Slot.next_slot p) t none
    ∙ ap (λ o. if slot_eq (Slot.next_slot p) t then none else o) (read-write_slot k w t (some p))

state-link_ready :
    (k : Kernel) (w : Slot) (p : ℕ) → ((link_ready k w p).pcb_table p).state ≡ State.ready
unfolding link_ready
state-link_ready k w p = rw ==_refl

pub ready_lem :
    (k : Kernel) (p : ℕ) (ps : List ℕ)
    → Chain k Slot.ready_slot ps
    → length ps < queue_fuel
    → ready k p ≡ ok (link_ready k (last_slot Slot.ready_slot ps) p)
unfolding ready
ready_lem k p ps c h = rw (find_end_lem queue_fuel k Slot.ready_slot ps c h)

pub SameData-link_ready :
    (k : Kernel) (w : Slot) (p i : ℕ) → SameData ((link_ready k w p).pcb_table i) (k.pcb_table i)
unfolding link_ready
SameData-link_ready k w p i =
    let k1 = write_slot k w (some p) in
    let k2 = write_slot k1 (Slot.next_slot p) none in
    SameData-trans (SameData-set_state k2 p i State.ready) (
      SameData-trans (SameData-write_slot k1 (Slot.next_slot p) none i)
        (SameData-write_slot k w (some p) i))

-- The process `p` is appended to the ready queue `ps`: its state is READY, every queue of other
-- processes is as it was, and so is all data but links and states.
pub record Appended (k : Kernel) (p : ℕ) (ps : List ℕ) (k' : Kernel) : Type 0 where
  pub queue : Chain k' Slot.ready_slot (ps ++ (p ∷ []))
  pub state : (k'.pcb_table p).state ≡ State.ready
  pub others :
      (s : Slot) (qs : List ℕ)
      → slot_eq Slot.ready_slot s ≡ false
      → Apart s (p ∷ ps)
      → Disjoint p ps qs
      → Chain k s qs
      → Chain k' s qs
  pub data_kept : (i : ℕ) → SameData (k'.pcb_table i) (k.pcb_table i)

-- The ready queue is a chain of distinct processes, fewer than 257, and `p` is not one of them.
-- Then `ready` of `p` returns. It appends `p` to the ready queue, makes it READY, and leaves every
-- queue of other processes and all data but links and states as they were.
pub ready-append :
    (k : Kernel) (p : ℕ) (ps : List ℕ)
    → Chain k Slot.ready_slot ps
    → Distinct ps
    → Apart (Slot.next_slot p) ps
    → length ps < queue_fuel
    → Returns (Appended k p ps) (ready k p)
ready-append k p ps c d a h =
    let w = last_slot Slot.ready_slot ps in
    let k' = link_ready k w p in
    let apart = Apart-head Slot.ready_slot (λ i. refl) ps in
    let same : (t : Slot)
        → slot_eq w t ≡ false
        → slot_eq (Slot.next_slot p) t ≡ false
        → read_slot k' t ≡ read_slot k t =
      λ t e f. read-link_ready k w t p ∙ rw (f, e) in
    let last : read_slot k' w ≡ some p =
      read-link_ready k w w p
      ∙ rw (
        slot_eq_comm (Slot.next_slot p) w
            ∙ last_slot-ne Slot.ready_slot (Slot.next_slot p) ps refl a,
        slot_eq_refl w,
      ) in
    let new : read_slot k' (Slot.next_slot p) ≡ none =
      read-link_ready k w (Slot.next_slot p) p ∙ rw (==_refl p) in
    (
      k',
      ready_lem k p ps c h,
      record {
        queue = Chain-append k k' Slot.ready_slot p ps same last new apart d a refl c;
        state = state-link_ready k w p;
        others = λ s qs e away dis chain.
            Chain-frame k k' s qs (same s (last_slot-ne Slot.ready_slot s ps e away.1) away.0)
              (SameNext-of_Disjoint k k' Slot.ready_slot p ps qs same (λ i. refl) dis) chain;
        data_kept = SameData-link_ready k w p;
      },
    )

read-unlink_head :
    (k : Kernel) (p : ℕ) (t : Slot)
    → read_slot (unlink_head k p) t ≡ (
        if slot_eq (Slot.next_slot p) t
        then none
        else if slot_eq Slot.ready_slot t
        then (k.pcb_table p).next
        else read_slot k t)
unfolding unlink_head
read-unlink_head k p t =
    let k1 = write_slot k Slot.ready_slot (k.pcb_table p).next in
    read-write_slot k1 (Slot.next_slot p) t none
    ∙ ap (λ o. if slot_eq (Slot.next_slot p) t then none else o)
        (read-write_slot k Slot.ready_slot t (k.pcb_table p).next)

pub next_lem :
    (k : Kernel) (p : ℕ) → read_slot k Slot.ready_slot ≡ some p → next k ≡ (some p, unlink_head k p)
unfolding next read_slot
next_lem k p e = ground arith

-- The ready queue is a chain of distinct processes that is not empty. Then `next` takes its first
-- process, the others stay in their order, and the process taken is linked to none.
pub next-pops :
    (k : Kernel) (p : ℕ) (ps : List ℕ)
    → Chain k Slot.ready_slot (p ∷ ps)
    → Distinct (p ∷ ps)
    → (k' : Kernel) × (next k ≡ (some p, k'))
      × Chain k' Slot.ready_slot ps
      × (read_slot k' (Slot.next_slot p) ≡ none)
unfolding read_slot
next-pops k p ps c d =
    let k' = unlink_head k p in
    (
      k',
      next_lem k p c.0,
      Chain-move k k' (Slot.next_slot p) Slot.ready_slot ps (read-unlink_head k p Slot.ready_slot)
          (SameNext-of_Apart k k' (Slot.next_slot p) ps
            (λ i e. read-unlink_head k p (Slot.next_slot i) ∙ rw e) d.0)
          c.1,
      read-unlink_head k p (Slot.next_slot p) ∙ rw (==_refl p),
    )
