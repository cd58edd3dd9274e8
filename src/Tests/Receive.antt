-- ===== src/Tests/Receive.antt =====
-- `receive` of c/msg.c at a concrete state.
use cs415_a.Base.{ℕ, refl, arith, some, [], ◌∷◌, Returns, ◌==◌, if◌then◌else◌}
use cs415_a.Kernel.{Kernel, Pcb, State, Slot, read_slot, read_word}
use cs415_a.Msg.{receive}
use cs415_a.Msg.Block.{Blocked}
use cs415_a.Msg.Receive.{receive-blocks}
use cs415_a.PidMap.{leaf, node, lookup}
use cs415_a.Queue.{queue_fuel}
use cs415_a.Tests.{kernel, blank, table}

-- The PID 265 is at 0x1000, and 266 at 0x1100.
abbrev named : ℕ → ℕ
named a =
    if a == 0x1000
    then 9
    else if a == 0x1001
    then 1
    else if a == 0x1100
    then 10
    else if a == 0x1101
    then 1
    else 0

-- Process 9 waits to send to 8, and process 6 to receive from 10.
abbrev pcbs : ℕ → Pcb
pcbs p =
    if p == 8
    then record blank { pid = 264; senders = some 9 }
    else if p == 9
    then record blank { pid = 265 }
    else if p == 10
    then record blank { pid = 266; receivers = some 6 }
    else if p == 6
    then record blank { pid = 262 }
    else table p

abbrev hearing : Kernel
hearing = record kernel {
  memory = named;
  pcb_table = pcbs;
  pid_map = node 0x3000 265 9 leaf (node 0x3200 266 10 leaf leaf 1) 2;
}

receive-blocks_example :
    Returns
      (Blocked hearing (Slot.receivers_slot 10) 8 State.receiving (6 ∷ []))
      (receive hearing 8 0x1100)
unfolding read_slot queue_fuel lookup read_word
receive-blocks_example =
    receive-blocks hearing 8 0x1100 10 (9 ∷ []) (omega arith) (omega arith) refl (refl, refl)
      (omega arith) (6 ∷ []) refl (refl, refl) (tt, tt) (refl, tt) refl (omega arith)
