-- ===== src/Boot/Ready.antt =====
-- The state in which `initproc` of c/init.c enters the dispatcher.

use cs415_a.Base.{ℕ}
use cs415_a.Boot.{Entries}
use cs415_a.Processor.{Gate}
use cs415_a.Processor.Gates.{Leads}
use cs415_a.Image.{Image}

-- The interrupts of the system call, the timer and the keyboard.
pub record Wired (e : Entries) (idt : ℕ → Gate) : Type 0 where
  pub system_call : Leads (idt 80) e.system_call
  pub timer : Leads (idt 32) e.timer
  pub keyboard : Leads (idt 33) e.keyboard
