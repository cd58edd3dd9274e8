-- ===== src/Sleep/Wake.antt =====
-- The loop of `tick` in c/sleep.c, which wakes the processes at the head of the sleep list.
use mathlib.Core.List.{append_assoc, append-nil}
use cs415_a.Base.{
  ℕ, zero, suc, ◌<◌, if◌then◌else◌, some, List, [], ◌∷◌, ◌++◌, length, ◌≡◌, ◌∙◌, refl, ap, arith,
  ok, Returns, length-append,
}
use cs415_a.Kernel.{Kernel, Slot, read_slot, set_irc}
use cs415_a.Kernel.Slots.{slot_eq, read-write_slot, read_slot-set_pcb}
use cs415_a.Queue.{ready, queue_fuel}
use cs415_a.Queue.Chain.{
  Chain, Apart-head, Distinct, Distinct-left, Apart-middle, Disjoint-middle, Chain-frame,
  Chain-move, SameNext-all,
}
use cs415_a.Queue.Ready.{ready-append}
use cs415_a.Sleep.{wake, pop_sleeper}
use cs415_a.Sleep.Times.{delta_of, delta-write_slot}

abbrev pub AllZero : Kernel → List ℕ → Type 0
AllZero k [] = Unit
AllZero k (p ∷ ps) = (delta_of k p ≡ 0) × AllZero k ps

read-pop_sleeper :
    (k : Kernel) (p : ℕ) (t : Slot)
    → read_slot (pop_sleeper k p) t
      ≡ (if slot_eq Slot.sleep_slot t then (k.pcb_table p).next else read_slot k t)
unfolding pop_sleeper
read-pop_sleeper k p t =
    read-write_slot (set_irc k p 0) Slot.sleep_slot t (k.pcb_table p).next
    ∙ ap (λ o. if slot_eq Slot.sleep_slot t then (k.pcb_table p).next else o)
        (read_slot-set_pcb k p _ t (record { next = refl; senders = refl; receivers = refl }))

delta-pop_sleeper : (k : Kernel) (p i : ℕ) → delta_of (pop_sleeper k p) i ≡ delta_of k i
unfolding pop_sleeper
delta-pop_sleeper k p i =
    delta-write_slot (set_irc k p 0) Slot.sleep_slot (k.pcb_table p).next i ∙ ground arith

pub record Woken (k : Kernel) (p : ℕ) (rs qs : List ℕ) (k' : Kernel) : Type 0 where
  pub ready_chain : Chain k' Slot.ready_slot (rs ++ (p ∷ []))
  pub sleep_chain : Chain k' Slot.sleep_slot qs
  pub deltas : (i : ℕ) → delta_of k' i ≡ delta_of k i

-- One round of the loop.
pub wake_one :
    (k : Kernel) (p : ℕ) (rs qs : List ℕ)
    → Chain k Slot.ready_slot rs
    → Chain k Slot.sleep_slot (p ∷ qs)
    → Distinct (rs ++ (p ∷ qs))
    → length rs < queue_fuel
    → Returns (Woken k p rs qs) (ready (pop_sleeper k p) p)
unfolding read_slot
wake_one k p rs qs c s d h =
    let k1 = pop_sleeper k p in
    let same = λ (i : ℕ). read-pop_sleeper k p (Slot.next_slot i) in
    let rc =
      Chain-frame k k1 Slot.ready_slot rs (read-pop_sleeper k p Slot.ready_slot)
        (SameNext-all k k1 rs same) c in
    let sc =
      Chain-move k k1 (Slot.next_slot p) Slot.sleep_slot qs (read-pop_sleeper k p Slot.sleep_slot)
        (SameNext-all k k1 qs same) s.1 in
    let (k2, e, a) =
      ready-append k1 p rs rc (Distinct-left rs (p ∷ qs) d) (Apart-middle rs p qs d) h in
    (
      k2,
      e,
      record {
        ready_chain = a.queue;
        sleep_chain =
            a.others Slot.sleep_slot qs refl (refl, Apart-head Slot.sleep_slot (λ i. refl) rs)
              (Disjoint-middle p rs qs d) sc;
        deltas = λ i. (a.data_kept i).delta ∙ delta-pop_sleeper k p i;
      },
    )

pub AllZero-same :
    (k k' : Kernel) (ps : List ℕ)
    → ((i : ℕ) → delta_of k' i ≡ delta_of k i)
    → AllZero k ps
    → AllZero k' ps
AllZero-same k k' [] e z = tt
AllZero-same k k' (p ∷ ps) e z = (e p ∙ z.0, AllZero-same k k' ps e z.1)

wake_stop :
    (fuel : ℕ) (k : Kernel) (x : ℕ)
    → read_slot k Slot.sleep_slot ≡ some x
    → 0 < delta_of k x
    → wake (suc fuel) k ≡ ok k
unfolding wake read_slot
wake_stop fuel k x e pos = ground arith

pub wake_go :
    (fuel : ℕ) (k k1 : Kernel) (p : ℕ)
    → read_slot k Slot.sleep_slot ≡ some p
    → delta_of k p ≡ 0
    → ready (pop_sleeper k p) p ≡ ok k1
    → wake (suc fuel) k ≡ wake fuel k1
unfolding wake read_slot
wake_go fuel k k1 p e zero_delta r = ground arith

pub record Awake (k : Kernel) (rs zs : List ℕ) (x : ℕ) (qs : List ℕ) (k' : Kernel) : Type 0 where
  pub ready_chain : Chain k' Slot.ready_slot (rs ++ zs)
  pub sleep_chain : Chain k' Slot.sleep_slot (x ∷ qs)
  pub deltas : (i : ℕ) → delta_of k' i ≡ delta_of k i

pub wake-Awake :
    (fuel : ℕ) (k : Kernel) (rs zs : List ℕ) (x : ℕ) (qs : List ℕ)
    → Chain k Slot.ready_slot rs
    → Chain k Slot.sleep_slot (zs ++ (x ∷ qs))
    → Distinct (rs ++ (zs ++ (x ∷ qs)))
    → AllZero k zs
    → 0 < delta_of k x
    → length (rs ++ zs) < queue_fuel
    → length zs < fuel
    → Returns (Awake k rs zs x qs) (wake fuel k)
wake-Awake zero k rs zs x qs c s d z pos h f = elim f [ ]
wake-Awake (suc fuel) k rs [] x qs c s d z pos h f = (
  k,
  wake_stop fuel k x s.0 pos,
  record { ready_chain = rw append-nil c; sleep_chain = s; deltas = λ i. refl },
)
wake-Awake (suc fuel) k rs (p ∷ zs) x qs c s d z pos h f =
    let (k1, e, w) =
      wake_one k p rs (zs ++ (x ∷ qs)) c s d (omega (arith, length-append {0} rs (p ∷ zs))) in
    let (k2, e2, a) =
      wake-Awake fuel k1 (rs ++ (p ∷ [])) zs x qs w.ready_chain w.sleep_chain (rw append_assoc d)
        (AllZero-same k k1 zs w.deltas z.1) (rw (w.deltas x) pos) (rw append_assoc h)
        (omega arith) in
    (
      k2,
      wake_go fuel k k1 p s.0 z.0 e ∙ e2,
      record {
        ready_chain = rw append_assoc at (a.ready_chain);
        sleep_chain = a.sleep_chain;
        deltas = λ i. a.deltas i ∙ w.deltas i;
      },
    )
