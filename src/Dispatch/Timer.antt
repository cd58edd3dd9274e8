-- ===== src/Dispatch/Timer.antt =====
-- The request SYS_TIMER of c/disp.c.
use cs415_a.Base.{ℕ, ◌≡◌, List, [], ◌∷◌, ◌++◌, map}
use cs415_a.Kernel.{Kernel, State, Slot}
use cs415_a.Image.{Image}
use cs415_a.Processor.{end_of_intr}
use cs415_a.Queue.{ready}
use cs415_a.Queue.Chain.{Chain}
use cs415_a.Sleep.Times.{times}
use cs415_a.Sleep.Tick.{one_less, total}

-- The sleepers `zs` and then `p` are behind the ready queue `rs`, and `p` is READY; the others sleep
-- on, with one tick less; the end of the interrupt is written to both interrupt controllers.
pub record Ticked (k : Kernel) (p : ℕ) (rs zs : List ℕ) (x : ℕ) (qs : List ℕ) (k' : Kernel)
    : Type 0 where
  pub queue : Chain k' Slot.ready_slot ((rs ++ zs) ++ (p ∷ []))
  pub sleepers : Chain k' Slot.sleep_slot (x ∷ qs)
  pub less : times k' 0 (x ∷ qs) ≡ map one_less (times k (total k zs) (x ∷ qs))
  pub state : (k'.pcb_table p).state ≡ State.ready
  pub ports : k'.ports ≡ (0xa0, 0x20) ∷ (0x20, 0x20) ∷ k.ports

-- The kernel when the interrupt has ended.
abbrev ended : Kernel → Kernel
ended k = record k { ports = end_of_intr k.ports }
