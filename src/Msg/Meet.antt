-- ===== src/Msg/Meet.antt =====
-- A sender and a receiver that meet in c/msg.c: the transfer, and both made ready.
use mathlib.Core.List.{append_assoc}
use cs415_a.Base.{
  ℕ, zero, suc, ◌+◌, ◌<◌, ◌≡◌, ◌∙◌, refl, ◌==◌, ◌!=◌, Option, none, some, List, [], ◌∷◌, ◌++◌,
  length, length-append, arith, ok, Returns, if◌then◌else◌, inl, inr, Bool-cases,
}
use cs415_a.Kernel.{Kernel, Slot, read_slot, write_slot, set_irc, arg, store_word}
use cs415_a.Kernel.Slots.{read_slot-set_pcb, SameData, SameData-trans}
use cs415_a.Queue.{queue_fuel, ready, link_ready, remove_pid}
use cs415_a.Queue.Chain.{
  Chain, Distinct, Distinct-left, Apart-middle, Chain-frame, last_slot, SameNext-all,
}
use cs415_a.Queue.Ready.{ready-append, ready_lem}
use cs415_a.Queue.Remove.{take_pid}
use cs415_a.Msg.{send_receive_transfer, ready_both, transfer_length, bcopy}

pub memory-write_slot :
    (k : Kernel) (s : Slot) (v : Option ℕ) → (write_slot k s v).memory ≡ k.memory
unfolding write_slot
memory-write_slot k Slot.ready_slot v = refl
memory-write_slot k s v = ground arith

memory-link_ready : (k : Kernel) (w : Slot) (p : ℕ) → (link_ready k w p).memory ≡ k.memory
unfolding link_ready
memory-link_ready k w p =
    memory-write_slot (write_slot k w (some p)) (Slot.next_slot p) none
    ∙ memory-write_slot k w (some p)

memory-ready :
    (k k' : Kernel) (p : ℕ) (ps : List ℕ)
    → Chain k Slot.ready_slot ps
    → length ps < queue_fuel
    → ready k p ≡ ok k'
    → k'.memory ≡ k.memory
memory-ready k k' p ps c h e =
    let same : link_ready k (last_slot Slot.ready_slot ps) p ≡ k' = cc (e, ready_lem k p ps c h) in
    rw⁻¹ same (memory-link_ready k (last_slot Slot.ready_slot ps) p)

-- Both processes are appended to the ready queue, and the data of none is changed.
pub record BothReady (k : Kernel) (p q : ℕ) (ps : List ℕ) (k' : Kernel) : Type 0 where
  pub queue : Chain k' Slot.ready_slot (ps ++ (p ∷ q ∷ []))
  pub memory : k'.memory ≡ k.memory
  pub data_kept : (i : ℕ) → SameData (k'.pcb_table i) (k.pcb_table i)

pub ready_both-BothReady :
    (k : Kernel) (p q : ℕ) (ps : List ℕ)
    → Chain k Slot.ready_slot ps
    → Distinct (ps ++ (p ∷ q ∷ []))
    → length ps + 1 < queue_fuel
    → Returns (BothReady k p q ps) (ready_both k p q)
ready_both-BothReady k p q ps c d h =
    let (k1, e1, a1) =
      ready-append k p ps c (Distinct-left ps (p ∷ q ∷ []) d) (Apart-middle ps p (q ∷ []) d)
        (omega arith) in
    let d' : Distinct ((ps ++ (p ∷ [])) ++ (q ∷ [])) = rw append_assoc d in
    let longer : length (ps ++ (p ∷ [])) < queue_fuel =
      omega (arith, length-append {0} ps (p ∷ [])) in
    let (k2, e2, a2) =
      ready-append k1 q (ps ++ (p ∷ [])) a1.queue (Distinct-left (ps ++ (p ∷ [])) (q ∷ []) d')
        (Apart-middle (ps ++ (p ∷ [])) q [] d') longer in
    (
      k2,
      rw e1 e2,
      record {
        queue = rw append_assoc at a2.queue;
        memory =
            memory-ready k1 k2 q (ps ++ (p ∷ [])) a1.queue longer e2
            ∙ memory-ready k k1 p ps c (omega arith) e1;
        data_kept = λ i. SameData-trans (a2.data_kept i) (a1.data_kept i);
      },
    )

read_slot-memory :
    (k : Kernel) (m : ℕ → ℕ) (t : Slot) → read_slot (record k { memory = m }) t ≡ read_slot k t
unfolding read_slot
read_slot-memory k m Slot.ready_slot = refl
read_slot-memory k m Slot.sleep_slot = refl
read_slot-memory k m (Slot.senders_slot i) = refl
read_slot-memory k m (Slot.receivers_slot i) = refl
read_slot-memory k m (Slot.next_slot i) = refl

-- A transfer changes no link.
pub read_slot-transfer :
    (k : Kernel) (src dest : ℕ) (t : Slot)
    → read_slot (send_receive_transfer k src dest) t ≡ read_slot k t
unfolding send_receive_transfer store_word
read_slot-transfer k src dest t =
    let len = transfer_length k src dest in
    let copied =
      if len != 0
      then record k { memory = bcopy len k.memory (arg k src 1) (arg k dest 1) }
      else k in
    let named = store_word copied (arg k dest 0) (k.pcb_table src).pid in
    let same : read_slot copied t ≡ read_slot k t = elim (Bool-cases (len != 0)) [
      | inl e ↦ rw e (read_slot-memory k _ t)
      | inr e ↦ rw e refl
    ] in
    read_slot-set_pcb (set_irc named dest len) src _ t
      (record { next = refl; senders = refl; receivers = refl })
    ∙ read_slot-set_pcb named dest _ t (record { next = refl; senders = refl; receivers = refl })
    ∙ read_slot-memory copied _ t
    ∙ same

pub remove_pid-none :
    (fuel : ℕ) (k : Kernel) (s : Slot) (pid : ℕ) (ps : List ℕ)
    → Chain k s ps
    → length ps < fuel
    → (take_pid k.pcb_table pid ps).0 ≡ none
    → remove_pid fuel k s pid ≡ ok (none, k)
unfolding remove_pid
remove_pid-none zero k s pid ps c h e = absurd (omega arith)
remove_pid-none (suc fuel) k s pid [] c h e = rw (c, remove_pid) refl
remove_pid-none (suc fuel) k s pid (p ∷ ps) c h e = elim (Bool-cases ((k.pcb_table p).pid == pid)) [
  | inl hit ↦ absurd (ground (arith, e, hit))
  | inr miss ↦
      rw (c.0, remove_pid)
        (rw miss
          (remove_pid-none fuel k (Slot.next_slot p) pid ps c.1 (omega arith) (rw miss at e)))
]

-- The bytes are moved from `p` to `q` as the transfer moves them, and both are appended to the ready
-- queue, with the results that the transfer gives them.
pub record Met (k : Kernel) (p q : ℕ) (ps : List ℕ) (k' : Kernel) : Type 0 where
  pub queue : Chain k' Slot.ready_slot (ps ++ (p ∷ q ∷ []))
  pub memory : k'.memory ≡ (send_receive_transfer k p q).memory
  pub data_kept : (i : ℕ) → SameData (k'.pcb_table i) ((send_receive_transfer k p q).pcb_table i)

pub transfer-Met :
    (k : Kernel) (p q : ℕ) (ps : List ℕ)
    → Chain k Slot.ready_slot ps
    → Distinct (ps ++ (p ∷ q ∷ []))
    → length ps + 1 < queue_fuel
    → Returns (Met k p q ps) (ready_both (send_receive_transfer k p q) p q)
transfer-Met k p q ps c d h =
    let k1 = send_receive_transfer k p q in
    let c1 =
      Chain-frame k k1 Slot.ready_slot ps (read_slot-transfer k p q Slot.ready_slot)
        (SameNext-all k k1 ps (λ i. read_slot-transfer k p q (Slot.next_slot i))) c in
    let (k2, e, b) = ready_both-BothReady k1 p q ps c1 d h in
    (k2, e, record { queue = b.queue; memory = b.memory; data_kept = b.data_kept })
