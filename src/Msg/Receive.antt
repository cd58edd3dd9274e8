-- ===== src/Msg/Receive.antt =====
-- `receive` of c/msg.c from a process that exists, on the queues of the two processes.
use cs415_a.Base.{ℕ, ◌<◌, ◌≡◌, ◌≢◌, ◌∙◌, refl, ==_ne, none, some, List, length, Returns, bind_ok}
use cs415_a.Kernel.{Kernel, State, Slot, read_slot}
use cs415_a.PidMap.{lookup}
use cs415_a.Queue.{queue_fuel, send_queue_remove, recv_queue_insert}
use cs415_a.Queue.Chain.{Chain, Apart, Distinct}
use cs415_a.Queue.Remove.{take_pid}
use cs415_a.Msg.{receive, receive_from}
use cs415_a.Msg.Meet.{remove_pid-none}
use cs415_a.Kernel.{read_word}
use cs415_a.Msg.Block.{Blocked, append_fuel-Blocked}

module _ (k : Kernel) (p from src : ℕ) (ss : List ℕ)
    (other : (k.pcb_table p).pid ≢ read_word k.memory from) (named : read_word k.memory from ≢ 0)
    (known : lookup k.pid_map (read_word k.memory from) ≡ some src)
    (send_c : Chain k (Slot.senders_slot p) ss) (few : length ss < queue_fuel) where
  pid : ℕ
  pid = read_word k.memory from

  receive_lem : receive k p from ≡ receive_from k p pid src
  unfolding receive pid
  receive_lem = rw (==_ne (k.pcb_table p).pid pid other, ==_ne pid 0 named, known) refl

  -- The receiver `p` is not the sender, and the PID at `from` is not 0 and that of the process `src`,
  -- which does not wait to send to `p`. The processes `rs` that wait to receive from `src` are distinct,
  -- fewer than 257 and not `p`, which is linked to none. Then `receive` returns, and `p` waits to
  -- receive at their end.
  pub receive-blocks :
      (rs : List ℕ)
      → (take_pid k.pcb_table (read_word k.memory from) ss).0 ≡ none
      → Chain k (Slot.receivers_slot src) rs
      → Distinct rs
      → Apart (Slot.next_slot p) rs
      → read_slot k (Slot.next_slot p) ≡ none
      → length rs < queue_fuel
      → Returns (Blocked k (Slot.receivers_slot src) p State.receiving rs) (receive k p from)
  unfolding receive_from send_queue_remove recv_queue_insert pid
  receive-blocks rs e c d a unlinked f =
      let (k', run, blocked) =
        append_fuel-Blocked k (Slot.receivers_slot src) p State.receiving rs (λ i. refl) c d a
          unlinked f in
      (
        k',
        receive_lem
            ∙ bind_ok (send_queue_remove k p pid) (none, k) _
                (remove_pid-none queue_fuel k (Slot.senders_slot p) pid ss send_c few e)
            ∙ run,
        blocked,
      )
