-- ===== src/Tests/Loop.antt =====
-- The calls of c/di_calls.c and a tick of the timer at concrete states.
use cs415_a.Base.{refl, arith, none}
use cs415_a.Device.{di_open, di_close}
use cs415_a.Device.Open.{Opened, Closed, di_close-di_open}
use cs415_a.Kernel.{Kernel}
use cs415_a.Tests.{kernel}

abbrev closed_keyboard : Kernel
closed_keyboard = record kernel { driver = record (kernel.driver) { pcb = none } }

di_close-di_open_example :
    Opened closed_keyboard 1 1 0 (di_open closed_keyboard 1 1)
    × Closed closed_keyboard 1 (di_close (di_open closed_keyboard 1 1).1 1 0)
di_close-di_open_example =
    di_close-di_open closed_keyboard 1 1 0 (omega arith) refl (omega arith) refl
      (λ j lt. absurd (omega arith))
