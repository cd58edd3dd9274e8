-- ===== src/Sleep/Fault.antt =====
-- `tick` of c/sleep.c, when all sleepers are due.
use mathlib.Core.List.{append_assoc}
use cs415_a.Base.{
  ℕ, zero, suc, ◌+◌, ◌-◌, ◌<◌, none, List, [], ◌∷◌, ◌++◌, length, length-append, ◌≡◌, ◌∙◌, arith,
  fault, ==_refl,
}
use cs415_a.Kernel.{Kernel, Slot, read_slot, set_delta}
use cs415_a.Queue.{queue_fuel}
use cs415_a.Queue.Chain.{Chain, Distinct, Distinct-right}
use cs415_a.Sleep.{wake, tick}
use cs415_a.Sleep.Times.{delta_of, times}
use cs415_a.Sleep.Wake.{AllZero, AllZero-same, wake_one, wake_go}
use cs415_a.Sleep.Tick.{
  AllAt, delta-set_delta, set_delta-SameDelta, Chain-set_delta, tick_lem, rest-AllZero,
}

wake_empty :
    (fuel : ℕ) (k : Kernel) → read_slot k Slot.sleep_slot ≡ none → wake (suc fuel) k ≡ fault
unfolding wake read_slot
wake_empty fuel k e = ground arith

wake-fault :
    (fuel : ℕ) (k : Kernel) (rs zs : List ℕ)
    → Chain k Slot.ready_slot rs
    → Chain k Slot.sleep_slot zs
    → Distinct (rs ++ zs)
    → AllZero k zs
    → length (rs ++ zs) < queue_fuel
    → length zs < fuel
    → wake fuel k ≡ fault
wake-fault zero k rs zs c s d z h f = elim f [ ]
wake-fault (suc fuel) k rs [] c s d z h f = wake_empty fuel k s
wake-fault (suc fuel) k rs (p ∷ zs) c s d z h f =
    let (k1, e, w) = wake_one k p rs zs c s d (omega (arith, length-append {0} rs (p ∷ zs))) in
    wake_go fuel k k1 p s.0 z.0 e
    ∙ wake-fault fuel k1 (rs ++ (p ∷ [])) zs w.ready_chain w.sleep_chain (rw append_assoc d)
        (AllZero-same k k1 zs w.deltas z.1) (rw append_assoc h) (omega arith)

-- The ready queue and the sleep list, which is not empty, are chains of processes, all distinct and
-- fewer than 257, and every sleeper has one tick left. Then `tick` goes through a NULL pointer once
-- it has woken the last of them.
pub tick-faults :
    (k : Kernel) (rs : List ℕ) (z : ℕ) (zs : List ℕ)
    → Chain k Slot.ready_slot rs
    → Chain k Slot.sleep_slot (z ∷ zs)
    → Distinct (rs ++ (z ∷ zs))
    → AllAt 1 (times k 0 (z ∷ zs))
    → length (rs ++ (z ∷ zs)) < queue_fuel
    → length (z ∷ zs) < queue_fuel
    → tick k ≡ fault
tick-faults k rs z zs c s d a h f =
    let k0 = set_delta k z (delta_of k z - 1) in
    let apart = (Distinct-right rs (z ∷ zs) d).0 in
    let same = set_delta-SameDelta k z (delta_of k z - 1) zs apart in
    let down : delta_of k0 z ≡ delta_of k z - 1 = delta-set_delta k z _ z ∙ rw (==_refl z) in
    let (zeros, tot) = rest-AllZero k k0 (0 + delta_of k z) zs a.1 (omega arith) same in
    tick_lem k z s.0 (omega arith) (omega arith)
    ∙ wake-fault queue_fuel k0 rs (z ∷ zs) (Chain-set_delta k z _ Slot.ready_slot rs c)
        (Chain-set_delta k z _ Slot.sleep_slot (z ∷ zs) s) d (omega arith, zeros) h f
