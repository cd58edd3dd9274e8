-- ===== src/Dispatch/Release.antt =====
-- The loops of `cleanup` of c/disp.c, by which the processes that wait for one that stops go on.
use mathlib.Core.List.{append_assoc}
use mathlib.Core.Path.{subst}
use cs415_a.Base.{
  ℕ, zero, suc, ◌<◌, ◌≡◌, ◌∙◌, refl, sym, false, some, none, List, [], ◌∷◌, ◌++◌, length,
  length-append, arith, Run, ok, ◌>>=◌, bind_ok, Returns,
}
use cs415_a.Kernel.{Kernel, Pcb, State, Slot, read_slot, write_slot}
use cs415_a.Kernel.Slots.{slot_eq, SameData-refl, SameData-trans}
use cs415_a.Queue.{queue_fuel, ready}
use cs415_a.Queue.Rest.{SameRest, SameRest-trans}
use cs415_a.Queue.Chain.{
  Chain, Apart, Apart-append_left, Apart-append_right, Distinct, Distinct-left, Distinct-right,
  Disjoint, Disjoint-middle,
}
use cs415_a.Msg.{sr_no_pid}
use cs415_a.Dispatch.{release_senders, release_receivers, release_all}
use cs415_a.Dispatch.Unblock.{IsHead, told, Same, ready-Unblocked}

-- The calls of these processes return that there is no such PID, and the processes are READY.
abbrev pub Told : Kernel → List ℕ → Type 0
Told k [] = Unit
Told k (q ∷ qs) =
    ((k.pcb_table q).irc ≡ sr_no_pid) × ((k.pcb_table q).state ≡ State.ready) × Told k qs

-- The processes `qs`, which were blocked in the queue `h`, are behind the ready queue `rs`, the queue
-- is empty, and all other queues of blocked processes and all other processes are as they were.
pub record Released (k : Kernel) (h : Slot) (rs qs : List ℕ) (k' : Kernel) : Type 0 where
  pub queue : Chain k' Slot.ready_slot (rs ++ qs)
  pub emptied : read_slot k' h ≡ none
  pub told_all : Told k' qs
  pub kept : (j : ℕ) → Apart (Slot.next_slot j) qs → Same (k'.pcb_table j) (k.pcb_table j)
  pub rest : SameRest k k'
  pub others :
      (t : Slot) (us : List ℕ)
      → IsHead t
      → slot_eq h t ≡ false
      → Distinct (rs ++ (qs ++ us))
      → Chain k t us
      → Chain k' t us

append_nil : (ps : List ℕ) → ps ++ [] ≡ ps
append_nil [] = refl
append_nil (p ∷ ps) = rw (append_nil ps) refl

Disjoint-right : (p : ℕ) (ps qs us : List ℕ) → Disjoint p ps (qs ++ us) → Disjoint p ps us
Disjoint-right p ps [] us d = d
Disjoint-right p ps (q ∷ qs) us d = Disjoint-right p ps qs us d.2

Same-trans : {p q r : Pcb} → Same p q → Same q r → Same p r
Same-trans a b = record {
  data_kept = SameData-trans a.data_kept b.data_kept;
  state = a.state ∙ b.state;
}

module _ (h : Slot) (head : IsHead h) (loop : ℕ → Kernel → Run Kernel)
    (stop : (fuel : ℕ) (k : Kernel) → read_slot k h ≡ none → loop (suc fuel) k ≡ ok k)
    (go : (fuel : ℕ) (k : Kernel) (s : ℕ)
      → read_slot k h ≡ some s
      → loop (suc fuel) k ≡ (ready (told k h s) s >>= loop fuel)) where
  Released-loop :
      (fuel : ℕ) (k : Kernel) (rs qs : List ℕ)
      → Chain k Slot.ready_slot rs
      → Chain k h qs
      → Distinct (rs ++ qs)
      → length (rs ++ qs) < queue_fuel
      → length qs < fuel
      → Returns (Released k h rs qs) (loop fuel k)
  Released-loop zero k rs qs c b d few short = absurd (omega arith)
  Released-loop (suc fuel) k rs [] c b d few short = (
    k,
    stop fuel k b,
    record {
      queue = subst (λ xs. Chain k Slot.ready_slot xs) (sym (append_nil rs)) c;
      emptied = b;
      told_all = tt;
      kept = λ j away. record { data_kept = SameData-refl (k.pcb_table j); state = refl };
      rest = record { pid_map = refl; next_pid = refl; memory = refl; heap = refl; idle = refl };
      others = λ t us is other dis chain. chain;
    },
  )
  Released-loop (suc fuel) k rs (s ∷ qs) c b d few short =
      let (k1, run1, u) =
        ready-Unblocked k h s rs qs head c b d
          (omega (arith, length-append {0} rs (s ∷ qs), few)) in
      let apart = (Distinct-right rs (s ∷ qs) d).0 in
      let d' : Distinct ((rs ++ (s ∷ [])) ++ qs) = rw append_assoc d in
      let (k2, run2, r) =
        Released-loop fuel k1 (rs ++ (s ∷ [])) qs u.queue u.blocked d' (rw append_assoc few)
          (omega arith) in
      (
        k2,
        go fuel k s b.0 ∙ bind_ok (ready (told k h s) s) k1 (loop fuel) run1 ∙ run2,
        record {
          queue = rw append_assoc at r.queue;
          emptied = r.emptied;
          told_all = (
            (r.kept s apart).data_kept.irc ∙ u.result,
            (r.kept s apart).state ∙ u.state,
            r.told_all,
          );
          kept = λ j away. Same-trans (r.kept j away.1) (u.kept j away.0);
          rest = SameRest-trans u.rest r.rest;
          others = λ t us is other dis chain. r.others t us is other (rw append_assoc dis) (
              u.others t us is other
                (Disjoint-right s rs qs us (Disjoint-middle s rs (qs ++ us) dis)) chain);
        },
      )

senders-IsHead : (p : ℕ) → IsHead (Slot.senders_slot p)
senders-IsHead p = record {
  not_ready = refl;
  no_next = λ i. refl;
  next_no = λ i. refl;
  ready_no = refl;
}

receivers-IsHead : (p : ℕ) → IsHead (Slot.receivers_slot p)
receivers-IsHead p = record {
  not_ready = refl;
  no_next = λ i. refl;
  next_no = λ i. refl;
  ready_no = refl;
}

Released-release_senders :
    (fuel : ℕ) (k : Kernel) (p : ℕ) (rs qs : List ℕ)
    → Chain k Slot.ready_slot rs
    → Chain k (Slot.senders_slot p) qs
    → Distinct (rs ++ qs)
    → length (rs ++ qs) < queue_fuel
    → length qs < fuel
    → Returns (Released k (Slot.senders_slot p) rs qs) (release_senders fuel k p)
unfolding release_senders read_slot write_slot
Released-release_senders fuel k p rs qs c b d few short =
    Released-loop (Slot.senders_slot p) (senders-IsHead p) (λ f k'. release_senders f k' p)
      (λ f k' e. rw (e, release_senders) refl) (λ f k' s e. rw (e, release_senders) refl) fuel k rs
      qs c b d few short

Released-release_receivers :
    (fuel : ℕ) (k : Kernel) (p : ℕ) (rs qs : List ℕ)
    → Chain k Slot.ready_slot rs
    → Chain k (Slot.receivers_slot p) qs
    → Distinct (rs ++ qs)
    → length (rs ++ qs) < queue_fuel
    → length qs < fuel
    → Returns (Released k (Slot.receivers_slot p) rs qs) (release_receivers fuel k p)
unfolding release_receivers read_slot write_slot
Released-release_receivers fuel k p rs qs c b d few short =
    Released-loop (Slot.receivers_slot p) (receivers-IsHead p) (λ f k'. release_receivers f k' p)
      (λ f k' e. rw (e, release_receivers) refl) (λ f k' s e. rw (e, release_receivers) refl) fuel k
      rs qs c b d few short

-- What the first loop has told its processes, the second one leaves.
Told-append :
    (k k' : Kernel) (qs us : List ℕ)
    → ((j : ℕ) → Apart (Slot.next_slot j) us → Same (k'.pcb_table j) (k.pcb_table j))
    → Distinct (qs ++ us)
    → Told k qs
    → Told k' us
    → Told k' (qs ++ us)
Told-append k k' [] us kept d t t' = t'
Told-append k k' (q ∷ qs) us kept d t t' =
    let same = kept q (Apart-append_right (Slot.next_slot q) qs us d.0) in
    (same.data_kept.irc ∙ t.0, same.state ∙ t.1, Told-append k k' qs us kept d.1 t.2 t')

-- The outcome when a process with the senders `qs` and the receivers `us` stops.
pub record AllReleased (k : Kernel) (p : ℕ) (rs qs us : List ℕ) (k' : Kernel) : Type 0 where
  pub queue : Chain k' Slot.ready_slot (rs ++ (qs ++ us))
  pub no_senders : read_slot k' (Slot.senders_slot p) ≡ none
  pub no_receivers : read_slot k' (Slot.receivers_slot p) ≡ none
  pub told_all : Told k' (qs ++ us)
  pub kept : (j : ℕ) → Apart (Slot.next_slot j) (qs ++ us) → Same (k'.pcb_table j) (k.pcb_table j)
  pub rest : SameRest k k'

-- The ready queue and the queues of those who wait to send to a process and to receive from it are
-- chains of distinct processes, fewer than 257 together. Then the two loops of `cleanup` return. They
-- empty the two queues and append the senders and then the receivers, in order, to the ready queue;
-- all these are READY and get the result that there is no such PID, and every other process keeps its
-- data and its state.
pub release_all-AllReleased :
    (k : Kernel) (p : ℕ) (rs qs us : List ℕ)
    → Chain k Slot.ready_slot rs
    → Chain k (Slot.senders_slot p) qs
    → Chain k (Slot.receivers_slot p) us
    → Distinct (rs ++ (qs ++ us))
    → length (rs ++ (qs ++ us)) < queue_fuel
    → Returns (AllReleased k p rs qs us) (release_all k p)
unfolding release_all
release_all-AllReleased k p rs qs us c b1 b2 d few =
    let d' : Distinct ((rs ++ qs) ++ us) = rw append_assoc d in
    let few' : length ((rs ++ qs) ++ us) < queue_fuel = rw append_assoc few in
    let long = length-append {0} (rs ++ qs) us in
    let (k1, run1, r1) =
      Released-release_senders queue_fuel k p rs qs c b1 (Distinct-left (rs ++ qs) us d')
        (omega (arith, long, few')) (omega (arith, long, few', length-append {0} rs qs)) in
    let b2' = r1.others (Slot.receivers_slot p) us (receivers-IsHead p) refl d b2 in
    let (k2, run2, r2) =
      Released-release_receivers queue_fuel k1 p (rs ++ qs) us r1.queue b2' d' few'
        (omega (arith, long, few')) in
    (
      k2,
      bind_ok (release_senders queue_fuel k p) k1 _ run1 ∙ run2,
      record {
        queue = subst (λ xs. Chain k2 Slot.ready_slot xs) (append_assoc rs qs us) r2.queue;
        no_senders =
            r2.others (Slot.senders_slot p) [] (senders-IsHead p) refl
              (subst (λ xs. Distinct ((rs ++ qs) ++ xs)) (sym (append_nil us)) d') r1.emptied;
        no_receivers = r2.emptied;
        told_all =
            Told-append k1 k2 qs us r2.kept (Distinct-right rs (qs ++ us) d) r1.told_all
              r2.told_all;
        rest = SameRest-trans r1.rest r2.rest;
        kept = λ j away.
            Same-trans (r2.kept j (Apart-append_right (Slot.next_slot j) qs us away))
              (r1.kept j (Apart-append_left (Slot.next_slot j) qs us away));
      },
    )
