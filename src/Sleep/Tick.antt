-- ===== src/Sleep/Tick.antt =====
-- `tick` of c/sleep.c, when some sleepers are due and others are not.

use cs415_a.Base.{
  ℕ, ◌+◌, ◌-◌, ◌<◌, ◌^◌, ◌==◌, if◌then◌else◌, some, List, [], ◌∷◌, ◌++◌, map, length, ◌≡◌, ◌∙◌,
  refl, ap, arith, Returns, ==_refl,
}
use cs415_a.Kernel.{Kernel, Slot, read_slot, set_delta}
use cs415_a.Kernel.Slots.{read_slot-set_pcb, slot_eq_comm}
use cs415_a.Queue.{queue_fuel}
use cs415_a.Queue.Chain.{Chain, Apart, Distinct, Chain-frame, Distinct-right, SameNext-all}
use cs415_a.Sleep.{wake, tick, tick_fuel}
use cs415_a.Sleep.Times.{
  delta_of, times, SameDelta, SameDelta-trans, SameDelta-left, SameDelta-right,
}
use cs415_a.Base.Word.{sub32}
use cs415_a.Sleep.Wake.{AllZero, wake-Awake}

-- Every process of the list has the ticks `t` left.
abbrev pub AllAt : (t : ℕ) → List (ℕ × ℕ) → Type 0
AllAt t [] = Unit
AllAt t ((p, u) ∷ rest) = (u ≡ t) × AllAt t rest

abbrev pub one_less : ℕ × ℕ → ℕ × ℕ
one_less (p, t) = (p, t - 1)

-- The delta of the last process of `ps`, counted from the start of the list.
abbrev pub total : Kernel → List ℕ → ℕ
total k [] = 0
total k (p ∷ ps) = delta_of k p + total k ps

times_down :
    (k k' : Kernel) (base base' : ℕ) (ps : List ℕ)
    → base' + 1 ≡ base
    → SameDelta k k' ps
    → times k' base' ps ≡ map one_less (times k base ps)
times_down k k' base base' [] e same = refl
times_down k k' base base' (p ∷ ps) e same =
    let t : base' + delta_of k' p ≡ base + delta_of k p - 1 = omega arith in
    λ i.
      (p, t i)
      ∷ times_down k k' (base + delta_of k p) (base' + delta_of k' p) ps (omega arith) same.1 i

module _ (k : Kernel) (h d : ℕ) where
  pub delta-set_delta :
      (i : ℕ) → delta_of (set_delta k h d) i ≡ (if h == i then d else delta_of k i)
  delta-set_delta i = ground arith

  pub set_delta-SameDelta :
      (ps : List ℕ) → Apart (Slot.next_slot h) ps → SameDelta k (set_delta k h d) ps
  set_delta-SameDelta [] a = tt
  set_delta-SameDelta (p ∷ ps) a = (
    delta-set_delta p ∙ rw (slot_eq_comm (Slot.next_slot h) (Slot.next_slot p) ∙ a.0),
    set_delta-SameDelta ps a.1,
  )

  read-set_delta : (t : Slot) → read_slot (set_delta k h d) t ≡ read_slot k t
  read-set_delta t =
      read_slot-set_pcb k h _ t (record { next = refl; senders = refl; receivers = refl })

  pub Chain-set_delta : (s : Slot) (ps : List ℕ) → Chain k s ps → Chain (set_delta k h d) s ps
  Chain-set_delta s ps c =
      Chain-frame k (set_delta k h d) s ps (read-set_delta s)
        (SameNext-all k (set_delta k h d) ps λ i. read-set_delta (Slot.next_slot i)) c

tick_head :
    (fuel : ℕ) (k : Kernel) (h : ℕ)
    → read_slot k Slot.sleep_slot ≡ some h
    → tick_fuel fuel k ≡ wake fuel (set_delta k h (sub32 (delta_of k h) 1))
unfolding tick_fuel read_slot
tick_head fuel k h e = ground arith

pub tick_lem :
    (k : Kernel) (h : ℕ)
    → read_slot k Slot.sleep_slot ≡ some h
    → 0 < delta_of k h
    → delta_of k h < 2 ^ 32
    → tick k ≡ wake queue_fuel (set_delta k h (delta_of k h - 1))
unfolding tick
tick_lem k h e pos bound =
    let less : sub32 (delta_of k h) 1 ≡ delta_of k h - 1 = omega arith in
    tick_head queue_fuel k h e ∙ ap (λ d. wake queue_fuel (set_delta k h d)) less

-- The processes behind the first have no ticks more than it.
pub rest-AllZero :
    (k k0 : Kernel) (base : ℕ) (ps : List ℕ)
    → AllAt 1 (times k base ps)
    → base ≡ 1
    → SameDelta k k0 ps
    → AllZero k0 ps × (total k ps ≡ 0)
rest-AllZero k k0 base [] a e same = (tt, refl)
rest-AllZero k k0 base (p ∷ ps) a e same =
    let (z, t) = rest-AllZero k k0 (base + delta_of k p) ps a.1 (omega arith) same.1 in
    ((omega arith, z), omega arith)

-- The ready queue and the sleep list are chains of processes, all distinct; the sleepers `zs` have
-- one tick left, and the next one, `x`, has more, by a 32-bit delta; the ready queue with `zs` has
-- fewer than 257 processes. Then `tick` returns: it moves `zs`, in their order, to the end of the
-- ready queue, and every process that still sleeps has one tick less.
pub tick-wakes :
    (k : Kernel) (rs zs : List ℕ) (x : ℕ) (qs : List ℕ)
    → Chain k Slot.ready_slot rs
    → Chain k Slot.sleep_slot (zs ++ (x ∷ qs))
    → Distinct (rs ++ (zs ++ (x ∷ qs)))
    → AllAt 1 (times k 0 zs)
    → 1 < total k zs + delta_of k x
    → delta_of k x < 2 ^ 32
    → length (rs ++ zs) < queue_fuel
    → length zs < queue_fuel
    → Returns
        (λ k'.
          Chain k' Slot.ready_slot (rs ++ zs)
          × Chain k' Slot.sleep_slot (x ∷ qs)
          × (times k' 0 (x ∷ qs) ≡ map one_less (times k (total k zs) (x ∷ qs))))
        (tick k)
tick-wakes k rs [] x qs c s d a lt bound h f =
    let k0 = set_delta k x (delta_of k x - 1) in
    let down : delta_of k0 x ≡ delta_of k x - 1 = delta-set_delta k x _ x ∙ rw (==_refl x) in
    let same = set_delta-SameDelta k x (delta_of k x - 1) qs (Distinct-right rs (x ∷ qs) d).0 in
    let (k', e, w) =
      wake-Awake queue_fuel k0 rs [] x qs (Chain-set_delta k x _ Slot.ready_slot rs c)
        (Chain-set_delta k x _ Slot.sleep_slot (x ∷ qs) s) d tt (omega arith) h f in
    let t : 0 + delta_of k' x ≡ 0 + delta_of k x - 1 = omega (arith, w.deltas x) in
    (
      k',
      tick_lem k x s.0 (omega arith) bound ∙ e,
      (
        w.ready_chain,
        w.sleep_chain,
        λ i.
            (x, t i)
            ∷ times_down k k' (0 + delta_of k x) (0 + delta_of k' x) qs (omega arith)
                (SameDelta-trans k k0 k' qs same (λ i. w.deltas i)) i,
      ),
    )
tick-wakes k rs (z ∷ zs) x qs c s d a lt bound h f =
    let k0 = set_delta k z (delta_of k z - 1) in
    let apart = (Distinct-right rs (z ∷ (zs ++ (x ∷ qs))) d).0 in
    let same = set_delta-SameDelta k z (delta_of k z - 1) (zs ++ (x ∷ qs)) apart in
    let down : delta_of k0 z ≡ delta_of k z - 1 = delta-set_delta k z _ z ∙ rw (==_refl z) in
    let same_x = SameDelta-right k k0 zs (x ∷ qs) same in
    let (zeros, tot) =
      rest-AllZero k k0 (0 + delta_of k z) zs a.1 (omega arith)
        (SameDelta-left k k0 zs (x ∷ qs) same) in
    let (k', e, w) =
      wake-Awake queue_fuel k0 rs (z ∷ zs) x qs (Chain-set_delta k z _ Slot.ready_slot rs c)
        (Chain-set_delta k z _ Slot.sleep_slot (z ∷ (zs ++ (x ∷ qs))) s) d (omega arith, zeros)
        (omega arith) h f in
    (
      k',
      tick_lem k z s.0 (omega arith) (omega arith) ∙ e,
      (
        w.ready_chain,
        w.sleep_chain,
        times_down k k' (total k (z ∷ zs)) 0 (x ∷ qs) (omega arith)
            (SameDelta-trans k k0 k' (x ∷ qs) same_x (λ i. w.deltas i)),
      ),
    )
