-- ===== src/Dispatch/Unblock.antt =====
-- One round of the loops of `cleanup` of c/disp.c: a process that waits for the one that stops.
use cs415_a.Base.{
  ℕ, ◌<◌, ◌≡◌, ◌∙◌, refl, ◌==◌, ==_refl, false, if◌then◌else◌, List, [], ◌∷◌, ◌++◌, length, Returns,
}
use cs415_a.Kernel.{Kernel, Pcb, State, Slot, read_slot, write_slot, set_irc}
use cs415_a.Kernel.Slots.{
  slot_eq, slot_eq_refl, read-write_slot, read_slot-set_pcb, SameData, SameData-trans,
  SameData-write_slot,
}
use cs415_a.Queue.{queue_fuel, ready}
use cs415_a.Queue.Chain.{
  Chain, Apart-head, Distinct, Distinct-left, Disjoint, Disjoint-middle, Apart-middle, Chain-frame,
  Chain-move, SameNext-all,
}
use cs415_a.Queue.Ready.{ready-append}
use cs415_a.Queue.Rest.{
  SameRest, SameRest-trans, SameRest-write_slot, ready-SameRest, state-write_slot, state-ready,
}
use cs415_a.Msg.{sr_no_pid}

-- A slot that is the head of a queue of blocked processes.
pub record IsHead (h : Slot) : Type 0 where
  pub not_ready : slot_eq Slot.ready_slot h ≡ false
  pub no_next : (i : ℕ) → slot_eq (Slot.next_slot i) h ≡ false
  pub next_no : (i : ℕ) → slot_eq h (Slot.next_slot i) ≡ false
  pub ready_no : slot_eq h Slot.ready_slot ≡ false

-- The first process is taken out of the queue, and its call returns that there is no such PID.
abbrev pub told : Kernel → (h : Slot) → (s : ℕ) → Kernel
told k h s = set_irc (write_slot k h (k.pcb_table s).next) s sr_no_pid

read-told :
    (k : Kernel) (h : Slot) (s : ℕ) (t : Slot)
    → read_slot (told k h s) t ≡ (if slot_eq h t then (k.pcb_table s).next else read_slot k t)
read-told k h s t =
    read_slot-set_pcb (write_slot k h (k.pcb_table s).next) s _ t
      (record { next = refl; senders = refl; receivers = refl })
    ∙ read-write_slot k h t (k.pcb_table s).next

SameRest-told : (k : Kernel) (h : Slot) (s : ℕ) → SameRest k (told k h s)
SameRest-told k h s =
    let r = SameRest-write_slot k h (k.pcb_table s).next in
    record {
      pid_map = r.pid_map;
      next_pid = r.next_pid;
      memory = r.memory;
      heap = r.heap;
      idle = r.idle;
    }

-- The data and the state of one process are as they were.
pub record Same (p q : Pcb) : Type 0 where
  pub data_kept : SameData p q
  pub state : p.state ≡ q.state

Same-told :
    (k : Kernel) (h : Slot) (s j : ℕ)
    → (s == j) ≡ false
    → Same ((told k h s).pcb_table j) (k.pcb_table j)
Same-told k h s j e = rw e (record {
  data_kept = SameData-write_slot k h (k.pcb_table s).next j;
  state = state-write_slot k h (k.pcb_table s).next j;
})

-- The first process of the queue is ready, the others stay in the queue, and no other queue of
-- processes that are neither ready nor this one is touched.
pub record Unblocked (k : Kernel) (h : Slot) (s : ℕ) (rs qs : List ℕ) (k' : Kernel) : Type 0 where
  pub queue : Chain k' Slot.ready_slot (rs ++ (s ∷ []))
  pub blocked : Chain k' h qs
  pub result : (k'.pcb_table s).irc ≡ sr_no_pid
  pub state : (k'.pcb_table s).state ≡ State.ready
  pub kept : (j : ℕ) → (s == j) ≡ false → Same (k'.pcb_table j) (k.pcb_table j)
  pub rest : SameRest k k'
  pub others :
      (t : Slot) (us : List ℕ)
      → IsHead t
      → slot_eq h t ≡ false
      → Disjoint s rs us
      → Chain k t us
      → Chain k' t us

pub ready-Unblocked :
    (k : Kernel) (h : Slot) (s : ℕ) (rs qs : List ℕ)
    → IsHead h
    → Chain k Slot.ready_slot rs
    → Chain k h (s ∷ qs)
    → Distinct (rs ++ (s ∷ qs))
    → length rs < queue_fuel
    → Returns (Unblocked k h s rs qs) (ready (told k h s) s)
unfolding read_slot
ready-Unblocked k h s rs qs head c b d few =
    let k1 = told k h s in
    let spared : (i : ℕ) → read_slot k1 (Slot.next_slot i) ≡ read_slot k (Slot.next_slot i) =
      λ i. read-told k h s (Slot.next_slot i) ∙ rw (head.next_no i) refl in
    let c1 =
      Chain-frame k k1 Slot.ready_slot rs (read-told k h s Slot.ready_slot ∙ rw head.ready_no refl)
        (SameNext-all k k1 rs spared) c in
    let b1 =
      Chain-move k k1 (Slot.next_slot s) h qs (read-told k h s h ∙ rw (slot_eq_refl h) refl)
        (SameNext-all k k1 qs spared) b.1 in
    let (k2, run, a) =
      ready-append k1 s rs c1 (Distinct-left rs (s ∷ qs) d) (Apart-middle rs s qs d) few in
    (
      k2,
      run,
      record {
        queue = a.queue;
        blocked =
            a.others h qs head.not_ready (Apart-head h head.no_next (s ∷ rs))
              (Disjoint-middle s rs qs d) b1;
        result = (a.data_kept s).irc ∙ rw (==_refl s) refl;
        state = a.state;
        kept = λ j ne. record {
          data_kept = SameData-trans (a.data_kept j) (Same-told k h s j ne).data_kept;
          state = state-ready k1 k2 s rs j c1 few run ne ∙ (Same-told k h s j ne).state;
        };
        rest = SameRest-trans (SameRest-told k h s) (ready-SameRest k1 k2 s rs c1 few run);
        others = λ t us is other dis chain.
            a.others t us is.not_ready (Apart-head t is.no_next (s ∷ rs)) dis (
              Chain-frame k k1 t us (read-told k h s t ∙ rw other refl)
                (SameNext-all k k1 us spared) chain);
      },
    )
