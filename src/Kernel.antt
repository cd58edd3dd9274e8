-- ===== src/Kernel.antt =====
-- h/xeroskernel.h and the globals of c/: the PCB table and the state that the handlers share.
-- A `pcb*` is the index of the PCB in `pcbTable`, and NULL is `none`.
pub mod Slots
pub mod Memory
use cs415_a.Base.{
  ℕ, ◌+◌, ◌*◌, ◌/◌, ◌%◌, ◌^◌, ◌==◌, if◌then◌else◌, List, Option, none, some, update, Run, ok, fault,
  ◌>>=◌,
}
use cs415_a.Base.Word.{add32}
use cs415_a.Heap.{Heap}
use cs415_a.PidMap.{Tree}
use cs415_a.Keyboard.Driver.{Driver}

pub data State : Type 0 where
  stopped running ready sending receiving sleeping reading writing waiting : State

-- the value of the enumeration constant
unfoldable pub state_number : State → ℕ
state_number State.stopped = 0
state_number State.running = 1
state_number State.ready = 2
state_number State.sending = 3
state_number State.receiving = 4
state_number State.sleeping = 5
state_number State.reading = 6
state_number State.writing = 7
state_number State.waiting = 8

-- `struct _pcb`. An entry of `opened_dv` is the device's index in `devtab`.
pub record Pcb : Type 0 where
  pub pid : ℕ
  pub parent_pid : ℕ
  pub state : State
  pub next : Option ℕ
  pub senders : Option ℕ
  pub receivers : Option ℕ
  pub esp : ℕ
  pub stack : ℕ
  pub irc : ℕ
  pub iargs : ℕ
  pub delta : ℕ
  pub sig_handler : ℕ → ℕ
  pub pending_sig : ℕ
  pub allowed_sig : ℕ
  pub hi_sig : ℕ
  pub opened_dv : ℕ → Option ℕ

-- `memory` holds the bytes that system calls read and write: stacks, arguments and buffers.
-- `heap` holds the headers of the memory manager. `printed` lists the strings given to `kprintf` by
-- the system call PUTS, and `ports` what `end_of_intr` writes to the ports, the last first.
pub record Kernel : Type 0 where
  pub pcb_table : ℕ → Pcb
  pub ready_queue : Option ℕ
  pub sleep_list : Option ℕ
  pub idle : Option ℕ
  pub pid_map : Tree
  pub next_pid : ℕ
  pub driver : Driver
  pub heap : Heap
  pub memory : ℕ → ℕ
  pub printed : List ℕ
  pub ports : List (ℕ × ℕ)

abbrev pub max_num_process : ℕ
max_num_process = 256

abbrev pub num_signal : ℕ
num_signal = 32

abbrev pub num_fd : ℕ
num_fd = 4

abbrev pub num_device : ℕ
num_device = 2

abbrev pub set_pcb : Kernel → ℕ → Pcb → Kernel
set_pcb k i p = record k { pcb_table = update k.pcb_table i p }

abbrev pub set_state : Kernel → ℕ → State → Kernel
set_state k i s = set_pcb k i (record (k.pcb_table i) { state = s })

abbrev pub set_irc : Kernel → ℕ → ℕ → Kernel
set_irc k i v = set_pcb k i (record (k.pcb_table i) { irc = v })

abbrev pub set_delta : Kernel → ℕ → ℕ → Kernel
set_delta k i v = set_pcb k i (record (k.pcb_table i) { delta = v })

-- A `pcb**`: a place that holds a pointer to a PCB.
pub data Slot : Type 0 where
  ready_slot sleep_slot : Slot
  senders_slot receivers_slot next_slot : ℕ → Slot

unfoldable pub read_slot : Kernel → Slot → Option ℕ
read_slot k Slot.ready_slot = k.ready_queue
read_slot k Slot.sleep_slot = k.sleep_list
read_slot k (Slot.senders_slot i) = (k.pcb_table i).senders
read_slot k (Slot.receivers_slot i) = (k.pcb_table i).receivers
read_slot k (Slot.next_slot i) = (k.pcb_table i).next

unfoldable pub write_slot : Kernel → Slot → Option ℕ → Kernel
write_slot k Slot.ready_slot v = record k { ready_queue = v }
write_slot k Slot.sleep_slot v = record k { sleep_list = v }
write_slot k (Slot.senders_slot i) v = set_pcb k i (record (k.pcb_table i) { senders = v })
write_slot k (Slot.receivers_slot i) v = set_pcb k i (record (k.pcb_table i) { receivers = v })
write_slot k (Slot.next_slot i) v = set_pcb k i (record (k.pcb_table i) { next = v })

-- A 32-bit word of memory, its low byte first.
unfoldable pub read_word : (ℕ → ℕ) → ℕ → ℕ
read_word m a = m a + 256 * m (add32 a 1) + 65536 * m (add32 a 2) + 16777216 * m (add32 a 3)

unfoldable pub write_word : (ℕ → ℕ) → ℕ → ℕ → ℕ → ℕ
write_word m a v =
    update
      (update (update (update m a (v % 256)) (add32 a 1) (v / 256 % 256)) (add32 a 2)
        (v / 65536 % 256))
      (add32 a 3) (v / 16777216 % 256)

unfoldable pub store_word : Kernel → ℕ → ℕ → Kernel
unfolding write_word
store_word k a v = record k { memory = write_word k.memory a v }

-- the n-th `va_arg` behind `p->iargs`
unfoldable pub arg : Kernel → (p n : ℕ) → ℕ
unfolding read_word
arg k p n = read_word k.memory (add32 (k.pcb_table p).iargs (4 * n))
