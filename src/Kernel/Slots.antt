-- ===== src/Kernel/Slots.antt =====
-- What a write to one slot does to the others (h/xeroskernel.h: `next`, `senders`, `receivers`).
use cs415_a.Base.{
  ℕ, Bool, true, false, ◌==◌, if◌then◌else◌, Option, ◌≡◌, refl, arith, ◌∙◌, Bool-cases, eq_of_==,
  inl, inr,
}
use cs415_a.Kernel.{Kernel, Pcb, Slot, State, read_slot, write_slot, set_pcb, set_state}
use mathlib.Core.Path.{subst}

abbrev pub slot_eq : Slot → Slot → Bool
slot_eq Slot.ready_slot Slot.ready_slot = true
slot_eq Slot.sleep_slot Slot.sleep_slot = true
slot_eq (Slot.senders_slot i) (Slot.senders_slot j) = i == j
slot_eq (Slot.receivers_slot i) (Slot.receivers_slot j) = i == j
slot_eq (Slot.next_slot i) (Slot.next_slot j) = i == j
slot_eq _ _ = false

-- The links of a PCB are those of another.
pub record SameLinks (p q : Pcb) : Type 0 where
  pub next : p.next ≡ q.next
  pub senders : p.senders ≡ q.senders
  pub receivers : p.receivers ≡ q.receivers

pub read-write_slot :
    (k : Kernel) (s t : Slot) (v : Option ℕ)
    → read_slot (write_slot k s v) t ≡ (if slot_eq s t then v else read_slot k t)
unfolding read_slot write_slot
read-write_slot k Slot.ready_slot Slot.ready_slot v = refl
read-write_slot k Slot.sleep_slot Slot.sleep_slot v = refl
read-write_slot k s t v = ground arith

-- An assignment to fields that are no links changes no slot.
pub read_slot-set_pcb :
    (k : Kernel) (i : ℕ) (q : Pcb) (t : Slot)
    → SameLinks q (k.pcb_table i)
    → read_slot (set_pcb k i q) t ≡ read_slot k t
unfolding read_slot
read_slot-set_pcb k i q Slot.ready_slot same = refl
read_slot-set_pcb k i q t same = ground arith

pub slot_eq_comm : (s t : Slot) → slot_eq s t ≡ slot_eq t s
slot_eq_comm Slot.ready_slot Slot.ready_slot = refl
slot_eq_comm s t = ground arith

pub slot_eq_refl : (s : Slot) → slot_eq s s ≡ true
slot_eq_refl Slot.ready_slot = refl
slot_eq_refl s = ground arith

-- A PCB differs from another at most in its links and its state.
pub record SameData (p q : Pcb) : Type 0 where
  pub pid : p.pid ≡ q.pid
  pub parent_pid : p.parent_pid ≡ q.parent_pid
  pub esp : p.esp ≡ q.esp
  pub stack : p.stack ≡ q.stack
  pub irc : p.irc ≡ q.irc
  pub iargs : p.iargs ≡ q.iargs
  pub delta : p.delta ≡ q.delta
  pub sig_handler : p.sig_handler ≡ q.sig_handler
  pub pending_sig : p.pending_sig ≡ q.pending_sig
  pub allowed_sig : p.allowed_sig ≡ q.allowed_sig
  pub hi_sig : p.hi_sig ≡ q.hi_sig
  pub opened_dv : p.opened_dv ≡ q.opened_dv

pub same_data :
    (p : Pcb) (s : State) (n m r : Option ℕ)
    → SameData (record p { state = s; next = n; senders = m; receivers = r }) p
same_data p s n m r = record {
  pid = refl;
  parent_pid = refl;
  esp = refl;
  stack = refl;
  irc = refl;
  iargs = refl;
  delta = refl;
  sig_handler = refl;
  pending_sig = refl;
  allowed_sig = refl;
  hi_sig = refl;
  opened_dv = refl;
}

pub SameData-refl : (p : Pcb) → SameData p p
SameData-refl p = same_data p p.state p.next p.senders p.receivers

pub SameData-trans : {p q r : Pcb} → SameData p q → SameData q r → SameData p r
SameData-trans a b = record {
  pid = a.pid ∙ b.pid;
  parent_pid = a.parent_pid ∙ b.parent_pid;
  esp = a.esp ∙ b.esp;
  stack = a.stack ∙ b.stack;
  irc = a.irc ∙ b.irc;
  iargs = a.iargs ∙ b.iargs;
  delta = a.delta ∙ b.delta;
  sig_handler = a.sig_handler ∙ b.sig_handler;
  pending_sig = a.pending_sig ∙ b.pending_sig;
  allowed_sig = a.allowed_sig ∙ b.allowed_sig;
  hi_sig = a.hi_sig ∙ b.hi_sig;
  opened_dv = a.opened_dv ∙ b.opened_dv;
}

-- An assignment to one PCB that keeps its data.
pub SameData-set_pcb :
    (k : Kernel) (i j : ℕ) (q : Pcb)
    → SameData q (k.pcb_table i)
    → SameData ((set_pcb k i q).pcb_table j) (k.pcb_table j)
SameData-set_pcb k i j q d = elim (Bool-cases (i == j)) [
  | inl e ↦ rw e (subst (λ n. SameData q (k.pcb_table n)) (eq_of_== i j e) d)
  | inr e ↦ rw e (SameData-refl (k.pcb_table j))
]

pub SameData-write_slot :
    (k : Kernel) (s : Slot) (v : Option ℕ) (j : ℕ)
    → SameData ((write_slot k s v).pcb_table j) (k.pcb_table j)
unfolding write_slot
SameData-write_slot k Slot.ready_slot v j = SameData-refl (k.pcb_table j)
SameData-write_slot k Slot.sleep_slot v j = SameData-refl (k.pcb_table j)
SameData-write_slot k (Slot.senders_slot i) v j =
    let q = k.pcb_table i in
    SameData-set_pcb k i j (record q { senders = v }) (same_data q q.state q.next v q.receivers)
SameData-write_slot k (Slot.receivers_slot i) v j =
    let q = k.pcb_table i in
    SameData-set_pcb k i j (record q { receivers = v }) (same_data q q.state q.next q.senders v)
SameData-write_slot k (Slot.next_slot i) v j =
    let q = k.pcb_table i in
    SameData-set_pcb k i j (record q { next = v }) (same_data q q.state v q.senders q.receivers)

pub SameData-set_state :
    (k : Kernel) (i j : ℕ) (s : State) → SameData ((set_state k i s).pcb_table j) (k.pcb_table j)
SameData-set_state k i j s =
    let q = k.pcb_table i in
    SameData-set_pcb k i j (record q { state = s }) (same_data q s q.next q.senders q.receivers)
