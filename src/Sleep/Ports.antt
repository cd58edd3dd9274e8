-- ===== src/Sleep/Ports.antt =====
-- What `tick` of c/sleep.c and `ready` of c/disp.c write to the ports.
use mathlib.Core.Path.{subst}
use cs415_a.Base.{
  ℕ, zero, suc, ◌≡◌, ◌∙◌, refl, Option, none, some, List, arith, Run, ok, aborted, fault,
  out_of_fuel, ◌>>=◌, inl, inr, Bool-cases, ◌==◌, if◌then◌else◌,
}
use cs415_a.Base.Word.{sub32}
use cs415_a.Kernel.{Kernel, Slot, write_slot, set_delta}
use cs415_a.Queue.{ready, ready_fuel, find_end, link_ready, queue_fuel}
use cs415_a.Sleep.{wake, pop_sleeper, tick, tick_fuel}

-- If the code returns, it has written to no port.
abbrev pub KeepsPorts : List (ℕ × ℕ) → Run Kernel → Type 0
KeepsPorts ports (ok k) = k.ports ≡ ports
KeepsPorts ports r = Unit

KeepsPorts-bind :
    (ports : List (ℕ × ℕ)) (r : Run Kernel) (f : Kernel → Run Kernel)
    → KeepsPorts ports r
    → ((k : Kernel) → k.ports ≡ ports → KeepsPorts ports (f k))
    → KeepsPorts ports (r >>= f)
KeepsPorts-bind ports (ok k) f h g = g k h
KeepsPorts-bind ports aborted f h g = tt
KeepsPorts-bind ports fault f h g = tt
KeepsPorts-bind ports out_of_fuel f h g = tt

ports-write_slot : (k : Kernel) (s : Slot) (v : Option ℕ) → (write_slot k s v).ports ≡ k.ports
unfolding write_slot
ports-write_slot k Slot.ready_slot v = refl
ports-write_slot k s v = ground arith

ports-link_ready : (k : Kernel) (s : Slot) (p : ℕ) → (link_ready k s p).ports ≡ k.ports
unfolding link_ready
ports-link_ready k s p =
    ports-write_slot (write_slot k s (some p)) (Slot.next_slot p) none
    ∙ ports-write_slot k s (some p)

pub ports-ready : (k : Kernel) (p : ℕ) → KeepsPorts k.ports (ready k p)
unfolding ready ready_fuel
ports-ready k p = go (find_end queue_fuel k Slot.ready_slot)
  where
    go : (r : Run Slot) → KeepsPorts k.ports (r >>= λ end. ok (link_ready k end p))
    go (ok end) = ports-link_ready k end p
    go aborted = tt
    go fault = tt
    go out_of_fuel = tt

ports-pop_sleeper : (k : Kernel) (p : ℕ) → (pop_sleeper k p).ports ≡ k.ports
unfolding pop_sleeper write_slot
ports-pop_sleeper k p = ground arith

ports-wake :
    (fuel : ℕ) (k : Kernel) (ports : List (ℕ × ℕ))
    → k.ports ≡ ports
    → KeepsPorts ports (wake fuel k)
unfolding wake
ports-wake zero k ports e = tt
ports-wake (suc fuel) k ports e = go (ports-wake fuel) k.sleep_list
  where
    go :
        ((k' : Kernel) (ports' : List (ℕ × ℕ))
          → k'.ports ≡ ports'
          → KeepsPorts ports' (wake fuel k'))
        → (o : Option ℕ)
        → KeepsPorts ports (elim o [
          | none ↦ fault
          | some p ↦
              let woken = ready (pop_sleeper k p) p >>= λ k'. wake fuel k' in
              if (k.pcb_table p).delta == 0 then woken else ok k
        ])
    go again none = tt
    go again (some p) = elim (Bool-cases ((k.pcb_table p).delta == 0)) [
      | inl zero_left ↦ rw zero_left (
          KeepsPorts-bind ports (ready (pop_sleeper k p) p) (wake fuel)
            (subst (λ x. KeepsPorts x (ready (pop_sleeper k p) p)) (ports-pop_sleeper k p ∙ e)
              (ports-ready (pop_sleeper k p) p))
            (λ k' e'. again k' ports e'))
      | inr more ↦ rw more e
    ]

pub ports-tick : (k : Kernel) → KeepsPorts k.ports (tick k)
unfolding tick tick_fuel
ports-tick k = go k.sleep_list
  where
    go :
        (o : Option ℕ)
        → KeepsPorts k.ports (elim o [
          | none ↦ ok k
          | some p ↦ wake queue_fuel (set_delta k p (sub32 (k.pcb_table p).delta 1))
        ])
    go none = refl
    go (some p) = ports-wake queue_fuel (set_delta k p (sub32 (k.pcb_table p).delta 1)) k.ports refl
