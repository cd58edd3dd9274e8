-- ===== src/Msg/Send.antt =====
-- `send` of c/msg.c to a process that exists, on the queues of the two processes.

use cs415_a.Base.{
  ℕ, ◌+◌, ◌<◌, ◌≡◌, ◌≢◌, ◌∙◌, refl, ap, ==_ne, Option, none, some, List, [], ◌∷◌, ◌++◌, length, Run,
  ok, Returns, true, false, arith, ◌⊎◌, inl, inr, Bool-cases,
}
use cs415_a.Kernel.{Kernel, State, Slot, read_slot, state_number, read_word, arg}
use cs415_a.PidMap.{lookup}
use cs415_a.Queue.{queue_fuel, recv_queue_remove, send_queue_insert}
use cs415_a.Queue.Chain.{Chain, Apart, Distinct, SameNext}
use cs415_a.Queue.Remove.{take_pid}
use cs415_a.Msg.{send, send_open, send_receive_transfer, accepts_any, ready_both}
use cs415_a.Msg.Block.{Blocked, append_fuel-Blocked}
use cs415_a.Msg.Meet.{remove_pid-none, Met, transfer-Met}

-- The process `p` waits at the end of the queue of `dest`'s senders.
abbrev pub Waits : Kernel → (p dest : ℕ) → List ℕ → Kernel → Type 0
Waits k p dest ss = Blocked k (Slot.senders_slot dest) p State.sending ss

-- The process waits to receive, and the word that its first argument points to is 0, for any sender.
pub record WaitsForAny (k : Kernel) (dest : ℕ) : Type 0 where
  pub state : (k.pcb_table dest).state ≡ State.receiving
  pub any : read_word k.memory (arg k dest 0) ≡ 0

state_number-receiving :
    (s : State) → state_number s ≡ state_number State.receiving → s ≡ State.receiving
unfolding state_number
state_number-receiving State.receiving e = refl
state_number-receiving s e = absurd (omega (arith, e))

accepts_any-WaitsForAny : (k : Kernel) (dest : ℕ) → accepts_any k dest ≡ true → WaitsForAny k dest
unfolding accepts_any
accepts_any-WaitsForAny k dest e = record {
  state = state_number-receiving (k.pcb_table dest).state (ground (arith, e));
  any = ground (arith, e);
}

accepts_any_not : (k : Kernel) (dest : ℕ) → accepts_any k dest ≡ false → ¬ WaitsForAny k dest
unfolding accepts_any
accepts_any_not k dest e w = absurd (ground (arith, e, w.any, ap state_number w.state))

-- None of the processes `ps` is one of `rs`.
abbrev pub AllApart : (ps rs : List ℕ) → Type 0
AllApart [] rs = Unit
AllApart (p ∷ ps) rs = Apart (Slot.next_slot p) rs × AllApart ps rs

pub SameNext-AllApart :
    (k k' : Kernel) (s : Slot) (ps rs : List ℕ)
    → ((i : ℕ)
        → Apart (Slot.next_slot i) rs
        → read_slot k' (Slot.next_slot i) ≡ read_slot k (Slot.next_slot i))
    → AllApart ps rs
    → SameNext k k' ps
SameNext-AllApart k k' s [] rs same a = tt
SameNext-AllApart k k' s (p ∷ ps) rs same a = (same p a.0, SameNext-AllApart k k' s ps rs same a.1)

module _ (k : Kernel) (p pid dest : ℕ) (ps rs : List ℕ) (other : (k.pcb_table p).pid ≢ pid)
    (known : lookup k.pid_map pid ≡ some dest) (ready_c : Chain k Slot.ready_slot ps)
    (h : length ps + 1 < queue_fuel) (recv_c : Chain k (Slot.receivers_slot p) rs)
    (few : length rs < queue_fuel) where
  send_lem :
      (r : Option ℕ × Kernel)
      → recv_queue_remove k p pid ≡ ok r
      → send k p pid ≡ (elim (r.0) as (λ _. Run Kernel) [
        | some q ↦ ready_both (send_receive_transfer r.1 p q) p q
        | none ↦ send_open r.1 p dest
      ])
  unfolding send
  send_lem r e = rw (==_ne (k.pcb_table p).pid pid other, known, e) refl

  -- No process of the queue `rs` has the PID.
  no_receiver : (take_pid k.pcb_table pid rs).0 ≡ none → send k p pid ≡ send_open k p dest
  unfolding recv_queue_remove
  no_receiver e =
      send_lem (none, k) (remove_pid-none queue_fuel k (Slot.receivers_slot p) pid rs recv_c few e)

  -- The sender `p` is not the receiver, and the PID is that of the process `dest`, which does not
  -- wait to receive from `p`. The ready processes `ps` with `p` and `dest` are distinct and fewer
  -- than 258; the processes `ss` that wait to send to `dest` are distinct, fewer than 257 and not
  -- `p`, which is linked to none. Then `send` returns. If `dest` is RECEIVING and the word that its
  -- first argument points to is 0, the message is moved to it, and both are made ready; otherwise
  -- `p` is appended to the queue of its senders.
  pub send-open :
      (ss : List ℕ)
      → (take_pid k.pcb_table pid rs).0 ≡ none
      → Distinct (ps ++ (p ∷ dest ∷ []))
      → Chain k (Slot.senders_slot dest) ss
      → Distinct ss
      → Apart (Slot.next_slot p) ss
      → read_slot k (Slot.next_slot p) ≡ none
      → length ss < queue_fuel
      → Returns
          (λ k'.
            (WaitsForAny k dest × Met k p dest ps k')
            ⊎ (¬ WaitsForAny k dest × Waits k p dest ss k'))
          (send k p pid)
  unfolding send_open send_queue_insert
  send-open ss e d c d' a unlinked f = elim (Bool-cases (accepts_any k dest)) [
    | inl any ↦
        (let (k', run, met) = transfer-Met k p dest ps ready_c d h in
          (k', no_receiver e ∙ rw any run, inl (accepts_any-WaitsForAny k dest any, met)))
    | inr full ↦
        (let (k', run, waits) =
            append_fuel-Blocked k (Slot.senders_slot dest) p State.sending ss (λ i. refl) c d' a
              unlinked f in
          (k', no_receiver e ∙ rw full run, inr (accepts_any_not k dest full, waits)))
  ]
