-- ===== src/Tests/Calls.antt =====
-- The messages of c/msg.c and the rounds of c/disp.c at concrete states.
use cs415_a.Base.{◌⊎◌, ℕ, refl, arith, some, [], ◌∷◌, Returns, ◌==◌, if◌then◌else◌, false, inl, inr}
use cs415_a.Dispatch.{Trap}
use cs415_a.Dispatch.Links.{IsYield}
use cs415_a.Dispatch.Turn.{Turn}
use cs415_a.Dispatch.Rounds.{run-Reaches, Reaches}
use cs415_a.Kernel.{Kernel, Pcb, read_slot, read_word, arg}
use cs415_a.Msg.{send, send_receive_transfer}
use cs415_a.Msg.Meet.{Met}
use cs415_a.Msg.Send.{send-open, Waits, WaitsForAny}
use cs415_a.Msg.Transfer.{Delivered, send_receive_transfer-Delivered}
use cs415_a.PidMap.{leaf, node, lookup}
use cs415_a.Queue.{queue_fuel}
use cs415_a.Tests.{kernel, image, blank, table}

-- Process 6 runs, 1 is the idle process and 2 is ready behind it.
abbrev busy : Kernel
busy = record kernel { idle = some 1 }

abbrev yields : Trap
yields = record {
  timer = false;
  esp = 0x20000;
  eax = 0;
  memory = λ a. if a == 0x2002c then 2 else 0;
}

yields-IsYield : IsYield yields
unfolding read_word
yields-IsYield = record { system_call = refl; request = refl }

busy-Turn : Turn busy 1 6 (1 ∷ 2 ∷ [])
unfolding read_slot queue_fuel
busy-Turn = record {
  idle_known = refl;
  queue = (refl, (refl, refl));
  distinct = ((refl, (refl, tt)), ((refl, tt), (tt, tt)));
  few = omega arith;
}

run-Reaches_example : Reaches image busy 6 2 (yields ∷ yields ∷ [])
run-Reaches_example =
    run-Reaches image busy 1 6 (1 ∷ []) 2 [] (yields ∷ yields ∷ []) busy-Turn (omega arith)
      (yields-IsYield, (yields-IsYield, tt)) (omega arith)

-- Process 7 sends three bytes at 0x1000; process 6 receives eight at 0x2000, and the PID at 0x3000.
abbrev arguments : ℕ → ℕ
arguments a =
    if a == 0x105
    then 0x10
    else if a == 0x108
    then 3
    else if a == 0x201
    then 0x30
    else if a == 0x205
    then 0x20
    else if a == 0x208
    then 8
    else if a == 0x1001
    then 98
    else 0

-- Process 6 waits to receive from 7, and process 9 to send to 8.
abbrev pcbs : ℕ → Pcb
pcbs p =
    if p == 6
    then record blank { pid = 262; iargs = 0x200 }
    else if p == 7
    then record blank { pid = 263; iargs = 0x100; receivers = some 6 }
    else if p == 8
    then record blank { pid = 264; senders = some 9 }
    else table p

abbrev calling : Kernel
calling = record kernel {
  memory = arguments;
  pcb_table = pcbs;
  pid_map = node 0x3000 262 6 leaf (node 0x3200 264 8 leaf leaf 1) 2;
}

send_receive_transfer-Delivered_example :
    Delivered calling 7 6 3 (send_receive_transfer calling 7 6)
unfolding arg read_word
send_receive_transfer-Delivered_example =
    send_receive_transfer-Delivered calling 7 6 3 (inl (omega arith, refl)) (omega arith)
      (omega arith) (omega arith) (inl (omega arith)) (inr (omega arith)) (omega arith)

send-open_example :
    Returns
      (λ k'.
        (WaitsForAny calling 8 × Met calling 7 8 (1 ∷ 2 ∷ []) k')
        ⊎ (¬ WaitsForAny calling 8 × Waits calling 7 8 (9 ∷ []) k'))
      (send calling 7 264)
unfolding read_slot queue_fuel lookup
send-open_example =
    send-open calling 7 264 8 (1 ∷ 2 ∷ []) (6 ∷ []) (omega arith) refl (refl, (refl, refl))
      (omega arith) (refl, refl) (omega arith) (9 ∷ []) refl
      ((refl, (refl, (refl, tt))), ((refl, (refl, tt)), ((refl, tt), (tt, tt)))) (refl, refl)
      (tt, tt) (refl, tt) refl (omega arith)
