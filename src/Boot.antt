-- ===== src/Boot.antt =====
-- `initproc` and `init_keyboard` of c/init.c, with the functions of c/ctsw.c and c/kbd.c that set
-- the kernel's own gates.
pub mod Heap
pub mod First
pub mod Ready
use cs415_a.Base.{
  ℕ, ◌+◌, ◌/◌, true, ◌==◌, if◌then◌else◌, none, some, List, Run, ok, fault, out_of_fuel, ◌>>=◌,
}
use cs415_a.Heap.{kmeminit}
use cs415_a.Kernel.{Kernel, State, state_number}
use cs415_a.Keyboard.Icu.{enable_irq}
use cs415_a.Image.{Image}
use cs415_a.PidMap.{lookup}
use cs415_a.Create.{create, init_pcb_table}
use cs415_a.Processor.{Gate, set_evec, init_pit}

-- The addresses of the assembler's entry points and of the functions of the first two processes.
pub record Entries : Type 0 where
  pub system_call : ℕ
  pub timer : ℕ
  pub keyboard : ℕ
  pub root : ℕ
  pub idleproc : ℕ

pub record Machine : Type 0 where
  pub kernel : Kernel
  pub idt : ℕ → Gate
  pub ports : List (ℕ × ℕ)

-- SYSCALL, IRQBASE and TIME_SLICE_DIV
abbrev pub syscall_vector : ℕ
syscall_vector = 80

abbrev pub irq_base : ℕ
irq_base = 32

abbrev pub time_slice_div : ℕ
time_slice_div = 1000 / 10

unfoldable pub init_syscall : Entries → Machine → Machine
unfolding set_evec
init_syscall e m = record m { idt = set_evec syscall_vector e.system_call m.idt }

unfoldable pub enable_timer_interrupt : Entries → Machine → Machine
unfolding set_evec init_pit
enable_timer_interrupt e m =
    let k = m.kernel in
    let (icu, ports) = init_pit time_slice_div (k.driver.icu, m.ports) in
    record m {
      idt = set_evec irq_base e.timer m.idt;
      kernel = record k { driver = record k.driver { icu = icu } };
      ports = ports;
    }

-- `set_keyboard_ISR` is its first line. The table of devices that it fills is `dvopen`.
unfoldable pub init_keyboard : Entries → Machine → Machine
unfolding set_evec enable_irq
init_keyboard e m =
    let k = m.kernel in
    record m {
      idt = set_evec (irq_base + 1) e.keyboard m.idt;
      kernel = record k { driver = record k.driver { icu = enable_irq k.driver.icu 1 true } };
    }

-- `pidMapLookup(pid, &pcb_index); idle = …; assertEquals(idle->state, READY);`. Without an entry the
-- index is not set; a failed assertion loops for ever.
unfoldable pub set_idle : (pid : ℕ) → Kernel → Run Kernel
unfolding lookup state_number
set_idle pid k = elim (lookup k.pid_map pid) [
  | none ↦ fault
  | some i ↦
      if state_number (k.pcb_table i).state == state_number State.ready
      then ok (record k { idle = some i })
      else out_of_fuel
]

-- The part of `initproc` that initialises, and the part that creates the first two processes, whose
-- failure it only prints.
unfoldable pub init_all : Image → Entries → Machine → Machine
unfolding kmeminit init_pcb_table init_syscall enable_timer_interrupt init_keyboard
init_all image e m =
    let k = m.kernel in
    let cleared = init_pcb_table (record k { heap = kmeminit image.freemem k.heap }) in
    init_keyboard e (enable_timer_interrupt e (init_syscall e (record m { kernel = cleared })))

unfoldable pub create_first : Image → Entries → Kernel → Run Kernel
unfolding create set_idle
create_first image e k = do
  (_, k1) ← create image k e.root 0x2000 0
  (pid, k2) ← create image k1 e.idleproc 0x2000 0
  set_idle pid k2

unfoldable pub initproc : Image → Entries → Machine → Run Machine
unfolding init_all create_first
initproc image e m =
    let m1 = init_all image e m in
    create_first image e m1.kernel >>= λ k. ok (record m1 { kernel = k })
