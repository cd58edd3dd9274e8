-- ===== src/Dispatch/Links.antt =====
-- What the steps of the loop of c/disp.c leave of the queues and of the idle process.
use mathlib.Core.Path.{subst}
use cs415_a.Base.{
  ℕ, ◌≡◌, ◌∙◌, refl, ap, false, ◌==◌, ◌!=◌, Option, none, some, arith, Run, ok, inl, inr,
  Bool-cases, ◌>>=◌,
}
use Prim.Native.Nat.{bit_and}
use cs415_a.Base.Word.{add32}
use cs415_a.Kernel.{Kernel, Pcb, Slot, read_slot, write_slot, set_pcb, read_word, store_word}
use cs415_a.Kernel.Slots.{read_slot-set_pcb}
use cs415_a.Image.{Image}
use cs415_a.Signal.{deliver_signal, deliver}
use cs415_a.Queue.{queue_fuel, find_end, ready, next, unlink_head, link_ready}
use cs415_a.Dispatch.{
  Trap, Request, enter, return_value, request_of, start, choose, choose_first, choose_other,
}

-- The trap of a process that yields.
pub record IsYield (t : Trap) : Type 0 where
  pub system_call : t.timer ≡ false
  pub request : read_word t.memory (add32 t.esp 44) ≡ 2

idle-write_slot : (k : Kernel) (s : Slot) (v : Option ℕ) → (write_slot k s v).idle ≡ k.idle
unfolding write_slot
idle-write_slot k Slot.ready_slot v = refl
idle-write_slot k s v = ground arith

idle-link_ready : (k : Kernel) (w : Slot) (p : ℕ) → (link_ready k w p).idle ≡ k.idle
unfolding link_ready
idle-link_ready k w p =
    idle-write_slot (write_slot k w (some p)) (Slot.next_slot p) none ∙ idle-write_slot k w (some p)

idle-unlink_head : (k : Kernel) (p : ℕ) → (unlink_head k p).idle ≡ k.idle
unfolding unlink_head
idle-unlink_head k p =
    idle-write_slot (write_slot k Slot.ready_slot (k.pcb_table p).next) (Slot.next_slot p) none
    ∙ idle-write_slot k Slot.ready_slot (k.pcb_table p).next

read_slot-memory :
    (k : Kernel) (m : ℕ → ℕ) (t : Slot) → read_slot (record k { memory = m }) t ≡ read_slot k t
unfolding read_slot
read_slot-memory k m t = ground arith

-- Entering the kernel changes no link.
module _ (k : Kernel) (p : ℕ) (t : Trap) where
  returned : Kernel
  returned = return_value k p

  trapped : Pcb
  trapped = record (returned.pcb_table p) {
    esp = t.esp;
    iargs = read_word t.memory (add32 t.esp 48);
  }

  pub entered : Kernel
  entered = set_pcb (record returned { memory = t.memory }) p trapped

  request_lem : IsYield t → request_of (read_word t.memory (add32 t.esp 44)) ≡ some Request.yield
  unfolding request_of
  request_lem y = ap request_of y.request

  pub enter_lem : IsYield t → enter (return_value k p) p t ≡ (some Request.yield, entered)
  unfolding enter entered trapped returned
  enter_lem y = rw y.system_call (λ i. (request_lem y i, entered))

  pub read_slot-entered : (s : Slot) → read_slot entered s ≡ read_slot k s
  unfolding entered trapped returned return_value store_word
  read_slot-entered s =
      read_slot-set_pcb (record returned { memory = t.memory }) p trapped s
        (record { next = refl; senders = refl; receivers = refl })
      ∙ read_slot-memory k t.memory s

  pub idle-entered : entered.idle ≡ k.idle
  unfolding entered returned return_value store_word
  idle-entered = refl

-- Delivering a signal and running the process changes no link.
module _ (image : Image) (k : Kernel) (p : ℕ) where
  pub read_slot-start : (s : Slot) → read_slot (start image k p) s ≡ read_slot k s
  unfolding start deliver_signal deliver
  read_slot-start s =
      let q = k.pcb_table p in
      read_slot-set_pcb (deliver_signal image k p) p _ s
        (record { next = refl; senders = refl; receivers = refl })
      ∙ elim (Bool-cases (bit_and q.pending_sig q.hi_sig != 0)) [
        | inl e ↦ rw e (
            read_slot-set_pcb (record k { memory = _ }) p _ s
              (record { next = refl; senders = refl; receivers = refl })
            ∙ read_slot-memory k _ s)
        | inr e ↦ rw e refl
      ]

  pub idle-start : (start image k p).idle ≡ k.idle
  unfolding start deliver_signal deliver
  idle-start = ground arith

-- What a run leaves as the idle process, if it returns.
abbrev pub KeepsIdle : (A : Type 0) → (A → Kernel) → Option ℕ → Run A → Type 0
KeepsIdle A f i (ok r) = (f r).idle ≡ i
KeepsIdle A f i _ = Unit

pub idle-ready : (k : Kernel) (p : ℕ) → KeepsIdle Kernel (λ k'. k') k.idle (ready k p)
unfolding ready
idle-ready k p =
    elim (find_end queue_fuel k Slot.ready_slot)
      as (λ r. KeepsIdle Kernel (λ k'. k') k.idle (r >>= λ w. ok (link_ready k w p))) [
        | ok w ↦ idle-link_ready k w p
        | _ ↦ tt
      ]

idle-next : (k : Kernel) → ((next k).1).idle ≡ k.idle
unfolding next
idle-next k =
    elim (k.ready_queue)
      as (λ o.
        ((elim o as (λ _. Option ℕ × Kernel) [
          | none ↦ (none, k)
          | some p ↦ (some p, unlink_head k p)
        ]).1
        ).idle
        ≡ k.idle) [ none ↦ refl | some p ↦ idle-unlink_head k p ]

abbrev pub Chosen : Option ℕ → Run (Option ℕ × Kernel) → Type 0
Chosen i r = KeepsIdle (Option ℕ × Kernel) (λ c. c.1) i r

idle-choose_other : (i : ℕ) (r : Option ℕ × Kernel) → Chosen (r.1).idle (choose_other i r)
unfolding choose_other
idle-choose_other i (none, k) = refl
idle-choose_other i (some q, k) =
    elim (ready k i)
        as (λ r.
          KeepsIdle Kernel (λ k'. k') k.idle r → Chosen k.idle (r >>= λ k'. ok (some q, k'))) [
            | ok k' ↦ λ e. e
            | _ ↦ λ _. tt
          ]
      (idle-ready k i)

idle-choose_first :
    (i o : Option ℕ) (r : Option ℕ × Kernel) → (r.1).idle ≡ o → Chosen o (choose_first i r)
unfolding choose_first
idle-choose_first i o (none, k) e = e
idle-choose_first none o (some p, k) e = e
idle-choose_first (some i) o (some p, k) e = elim (Bool-cases (p == i)) [
  | inl here ↦ rw here (
      subst (λ x. Chosen x (choose_other i (next k))) (idle-next k ∙ e)
        (idle-choose_other i (next k)))
  | inr away ↦ rw away e
]

pub idle-choose : (k : Kernel) → Chosen k.idle (choose k)
unfolding choose
idle-choose k = idle-choose_first k.idle k.idle (next k) (idle-next k)
