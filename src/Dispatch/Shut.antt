-- ===== src/Dispatch/Shut.antt =====
-- The loop of `cleanup` of c/disp.c that closes the devices.
use mathlib.Core.Path.{subst}
use cs415_a.Base.{
  Option, some, ◌<◌, ◌≤◌, ◌⊎◌, none, eq_of_==, Bool-cases, inl, inr, ==_refl, true, ℕ, zero, suc,
  ◌+◌, ◌≡◌, ◌∙◌, refl, ◌==◌, false, if◌then◌else◌, arith,
}
use cs415_a.Base.Word.{lt_int}
use cs415_a.Kernel.{Kernel, Slot, read_slot}
use cs415_a.Keyboard.Calls.{keyboard_close}
use cs415_a.Device.{di_close, is_none}
use cs415_a.Dispatch.{close_all}

-- What closing leaves of the kernel: all but the driver and the process's own result and
-- descriptors.
pub record Shut (k k' : Kernel) (p : ℕ) : Type 0 where
  pub heap : k'.heap ≡ k.heap
  pub pid_map : k'.pid_map ≡ k.pid_map
  pub slots : (t : Slot) → read_slot k' t ≡ read_slot k t
  pub stack : (k'.pcb_table p).stack ≡ (k.pcb_table p).stack
  pub pid : (k'.pcb_table p).pid ≡ (k.pcb_table p).pid
  pub others : (j : ℕ) → (p == j) ≡ false → k'.pcb_table j ≡ k.pcb_table j

Shut-trans : {k k' k'' : Kernel} {p : ℕ} → Shut k k' p → Shut k' k'' p → Shut k k'' p
Shut-trans a b = record {
  heap = b.heap ∙ a.heap;
  pid_map = b.pid_map ∙ a.pid_map;
  slots = λ t. b.slots t ∙ a.slots t;
  stack = b.stack ∙ a.stack;
  pid = b.pid ∙ a.pid;
  others = λ j e. b.others j e ∙ a.others j e;
}

abbrev close_one : Kernel → (p fd : ℕ) → Kernel
close_one k p fd = if is_none ((k.pcb_table p).opened_dv fd) then k else (di_close k p fd).1

slots-close_one :
    (k : Kernel) (p fd : ℕ) (t : Slot) → read_slot (close_one k p fd) t ≡ read_slot k t
unfolding di_close keyboard_close read_slot
slots-close_one k p fd Slot.ready_slot = ground arith
slots-close_one k p fd t = ground arith

Shut-close_one : (k : Kernel) (p fd : ℕ) → Shut k (close_one k p fd) p
unfolding di_close keyboard_close
Shut-close_one k p fd = record {
  heap = ground arith;
  pid_map = ground arith;
  slots = slots-close_one k p fd;
  stack = ground arith;
  pid = ground arith;
  others = λ j e. ground (arith, e);
}

pub Shut-close_all : (rounds fd : ℕ) (k : Kernel) (p : ℕ) → Shut k (close_all rounds fd k p) p
unfolding close_all
Shut-close_all zero fd k p = record {
  heap = refl;
  pid_map = refl;
  slots = λ t. refl;
  stack = refl;
  pid = refl;
  others = λ j e. refl;
}
Shut-close_all (suc rounds) fd k p =
    Shut-trans (Shut-close_one k p fd) (Shut-close_all rounds (fd + 1) (close_one k p fd) p)

none_of-is_none : (o : Option ℕ) → is_none o ≡ true → o ≡ none
none_of-is_none none e = refl
none_of-is_none (some v) e = absurd (ground (arith, e))

not_negative : (fd : ℕ) → fd < 4 → lt_int fd 0 ≡ false
not_negative fd lt = ground arith

in_table : (fd : ℕ) → fd < 4 → lt_int fd 4 ≡ true
in_table fd lt = ground arith

-- A descriptor below 4 is closed.
closed-close_one :
    (k : Kernel) (p fd : ℕ) → fd < 4 → ((close_one k p fd).pcb_table p).opened_dv fd ≡ none
unfolding di_close keyboard_close
closed-close_one k p fd lt = elim (Bool-cases (is_none ((k.pcb_table p).opened_dv fd))) [
  | inl closed ↦ rw closed (none_of-is_none ((k.pcb_table p).opened_dv fd) closed)
  | inr opened ↦
      rw (not_negative fd lt, in_table fd lt, opened) (rw (==_refl p) (rw (==_refl fd) refl))
]

-- A closed descriptor stays closed.
closed-keeps :
    (k : Kernel) (p fd x : ℕ)
    → (k.pcb_table p).opened_dv x ≡ none
    → ((close_one k p fd).pcb_table p).opened_dv x ≡ none
unfolding di_close keyboard_close
closed-keeps k p fd x e = ground (arith, e)

-- The loop closes the descriptors from `fd` on, one for each round.
pub closed-close_all :
    (rounds fd : ℕ) (k : Kernel) (p x : ℕ)
    → fd + rounds ≤ 4
    → ((fd ≤ x) × (x < fd + rounds)) ⊎ ((k.pcb_table p).opened_dv x ≡ none)
    → ((close_all rounds fd k p).pcb_table p).opened_dv x ≡ none
unfolding close_all
closed-close_all zero fd k p x h (inl within) = absurd (omega (arith, within))
closed-close_all zero fd k p x h (inr closed) = closed
closed-close_all (suc rounds) fd k p x h known =
    closed-close_all rounds (fd + 1) (close_one k p fd) p x (omega arith)
      (elim (Bool-cases (fd == x)) [
        | inl e ↦ inr (
            subst (λ y. ((close_one k p fd).pcb_table p).opened_dv y ≡ none) (eq_of_== fd x e)
              (closed-close_one k p fd (omega arith)))
        | inr e ↦ elim known [
          | inl within ↦ inl (ground (arith, within, e))
          | inr closed ↦ inr (closed-keeps k p fd x closed)
        ]
      ])
