-- ===== src/Device/Open.antt =====
-- Opening and closing devices by c/di_calls.c.
use mathlib.Core.Path.{subst}
use cs415_a.Base.{
  ◌||◌, not, ℕ, zero, suc, ◌+◌, ◌<◌, ◌≡◌, ◌∙◌, refl, sym, ap, true, false, ◌==◌, ==_refl, eq_of_==,
  if◌then◌else◌, Option, none, some, arith, inl, inr, Bool-cases,
}
use cs415_a.Base.Word.{minus, lt_int}
use cs415_a.Kernel.{Kernel, set_irc}
use cs415_a.Keyboard.Calls.{
  Drv, set_driver, open_with, keyboard_open, keyboard_open_echo, keyboard_close,
}
use cs415_a.Device.{find_fd, is_none, di_open, di_close, dvopen, set_opened}

find_fd_lem :
    (opened : ℕ → Option ℕ) (rounds i n : ℕ)
    → n < rounds
    → opened (i + n) ≡ none
    → ((j : ℕ) → j < n → is_none (opened (i + j)) ≡ false)
    → find_fd rounds i opened ≡ i + n
unfolding find_fd
find_fd_lem opened zero i n lt free used = absurd (omega arith)
find_fd_lem opened (suc rounds) i zero lt free used =
    let e : i + 0 ≡ i = omega arith in rw (ap opened (sym e) ∙ free) (sym e)
find_fd_lem opened (suc rounds) i (suc n) lt free used =
    let e : i + 0 ≡ i = omega arith in
    let first : is_none (opened i) ≡ false =
      ap is_none (ap opened (sym e)) ∙ used 0 (omega arith) in
    let far : i + 1 + n ≡ i + suc n = omega arith in
    rw first (
      find_fd_lem opened rounds (i + 1) n (omega arith) (ap opened far ∙ free) (λ j j_lt.
        let next : i + 1 + j ≡ i + suc j = omega arith in
        ap is_none (ap opened next) ∙ used (suc j) (omega arith))
      ∙ far)

first_fd :
    (opened : ℕ → Option ℕ) (fd : ℕ)
    → fd < 4
    → opened fd ≡ none
    → ((j : ℕ) → j < fd → is_none (opened j) ≡ false)
    → find_fd 4 0 opened ≡ fd
first_fd opened fd lt free used =
    let same : (x : ℕ) → 0 + x ≡ x = λ x. omega arith in
    find_fd_lem opened 4 0 fd lt (ap opened (same fd) ∙ free)
      (λ j j_lt. ap is_none (ap opened (same j)) ∙ used j j_lt)
    ∙ same fd

-- A descriptor that was free, was used and is free again.
released :
    (old new : ℕ → Option ℕ) (dv fd i : ℕ)
    → old fd ≡ none
    → new i ≡ (if fd == i then some dv else old i)
    → (if fd == i then none else new i) ≡ old i
released old new dv fd i free e = elim (Bool-cases (fd == i)) [
  | inl same ↦ rw same (sym free ∙ ap old (eq_of_== fd i same))
  | inr other ↦ rw other (e ∙ rw other refl)
]

-- The device `dv` is open for `p` by the descriptor `fd`.
pub record Opened (k : Kernel) (p dv fd : ℕ) (r : Drv × Kernel) : Type 0 where
  pub answer : r.0 ≡ Drv.done
  pub result : (r.1.pcb_table p).irc ≡ fd
  pub descriptors :
      (i : ℕ)
      → (r.1.pcb_table p).opened_dv i ≡ (if fd == i then some dv else (k.pcb_table p).opened_dv i)
  pub owner : r.1.driver.pcb ≡ some p
  pub echo : r.1.driver.echo ≡ dv

-- The descriptor is free again, and so is the driver.
pub record Closed (k : Kernel) (p : ℕ) (r : Drv × Kernel) : Type 0 where
  pub answer : r.0 ≡ Drv.done
  pub result : (r.1.pcb_table p).irc ≡ 0
  pub descriptors : (i : ℕ) → (r.1.pcb_table p).opened_dv i ≡ (k.pcb_table p).opened_dv i
  pub owner : r.1.driver.pcb ≡ none

-- The driver is given to `p`.
owned : Kernel → (p echo : ℕ) → Kernel
owned k p echo = (open_with echo (set_driver k (record (k.driver) { pcb = none })) p).1

open_with_lem :
    (echo : ℕ) (k : Kernel) (p : ℕ)
    → k.driver.pcb ≡ none
    → open_with echo k p ≡ (Drv.done, owned k p echo)
unfolding open_with owned
open_with_lem echo k p e = rw e refl

fd_lem : (fd : ℕ) → fd < 4 → lt_int fd 4 ≡ true
fd_lem fd lt = ground arith

-- `di_open`, for the descriptor that is found and the answer of the driver.
abbrev opened : Kernel → (p dv fd : ℕ) → Drv × Kernel → Drv × Kernel
opened k p dv_no fd (rc, k1) =
    let opened : Drv × Kernel = elim rc [
      | Drv.done ↦ (Drv.done, set_irc (set_opened k1 p fd (some dv_no)) p fd)
      | _ ↦ (Drv.error, set_irc k1 p (minus 1))
    ] in
    if lt_int dv_no 0 || not (lt_int dv_no 2)
    then (Drv.error, set_irc k p (minus 1))
    else if lt_int fd 4
    then opened
    else (Drv.error, set_irc k p (minus 1))

di_open_parts :
    (k : Kernel) (p dv : ℕ)
    → di_open k p dv ≡ opened k p dv (find_fd 4 0 (k.pcb_table p).opened_dv) (dvopen dv k p)
unfolding di_open
di_open_parts k p dv = refl

opened_lem :
    (k k1 : Kernel) (p dv fd : ℕ)
    → fd < 4
    → dv < 2
    → opened k p dv fd (Drv.done, k1) ≡ (Drv.done, set_irc (set_opened k1 p fd (some dv)) p fd)
opened_lem k k1 p zero fd lt small = rw (fd_lem fd lt) refl
opened_lem k k1 p (suc zero) fd lt small = rw (fd_lem fd lt) refl
opened_lem k k1 p (suc (suc dv)) fd lt small = absurd (omega arith)

dvopen_lem :
    (k : Kernel) (p dv : ℕ)
    → dv < 2
    → k.driver.pcb ≡ none
    → dvopen dv k p ≡ (Drv.done, owned k p dv)
unfolding dvopen keyboard_open keyboard_open_echo
dvopen_lem k p zero small idle = open_with_lem 0 k p idle
dvopen_lem k p (suc zero) small idle = open_with_lem 1 k p idle
dvopen_lem k p (suc (suc dv)) small idle = absurd (omega arith)

di_open_lem :
    (k : Kernel) (p dv fd : ℕ)
    → find_fd 4 0 (k.pcb_table p).opened_dv ≡ fd
    → fd < 4
    → dv < 2
    → k.driver.pcb ≡ none
    → di_open k p dv ≡ (Drv.done, set_irc (set_opened (owned k p dv) p fd (some dv)) p fd)
di_open_lem k p dv fd found lt small idle =
    di_open_parts k p dv
    ∙ (λ i. opened k p dv (found i) (dvopen_lem k p dv small idle i))
    ∙ opened_lem k (owned k p dv) p dv fd lt small

Opened-set_opened :
    (k : Kernel) (p dv fd : ℕ)
    → Opened k p dv fd (Drv.done, set_irc (set_opened (owned k p dv) p fd (some dv)) p fd)
unfolding owned open_with
Opened-set_opened k p dv fd = record {
  answer = refl;
  result = rw (==_refl p) refl;
  descriptors = λ i. rw (==_refl p) refl;
  owner = refl;
  echo = refl;
}

guard_lem : (fd : ℕ) → fd < 4 → lt_int fd 0 ≡ false
guard_lem fd lt = ground arith

di_close_lem :
    (k : Kernel) (p dv fd : ℕ)
    → (k.pcb_table p).opened_dv fd ≡ some dv
    → fd < 4
    → di_close k p fd ≡ (Drv.done, set_irc (set_opened (keyboard_close k p).1 p fd none) p 0)
unfolding di_close keyboard_close
di_close_lem k p dv fd e lt = rw (guard_lem fd lt) (rw (fd_lem fd lt) (rw e refl))

Closed-set_opened :
    (k : Kernel) (p fd i : ℕ)
    → let k' = set_irc (set_opened (keyboard_close k p).1 p fd none) p 0 in
      ((k'.pcb_table p).irc ≡ 0)
      × ((k'.pcb_table p).opened_dv i ≡ (if fd == i then none else (k.pcb_table p).opened_dv i))
      × (k'.driver.pcb ≡ none)
unfolding keyboard_close
Closed-set_opened k p fd i = (rw (==_refl p) refl, rw (==_refl p) refl, refl)

-- The device is 0 or 1, and its driver is free. The descriptor `fd` of `p` is below 4 and free, and all
-- below it are used. Then `di_open` gives `p` this descriptor for the device, and the driver, which
-- echoes if the device is 1. Closing the descriptor leaves the descriptors as they were before and the
-- driver free.
pub di_close-di_open :
    (k : Kernel) (p dv fd : ℕ)
    → dv < 2
    → k.driver.pcb ≡ none
    → fd < 4
    → (k.pcb_table p).opened_dv fd ≡ none
    → ((j : ℕ) → j < fd → is_none ((k.pcb_table p).opened_dv j) ≡ false)
    → Opened k p dv fd (di_open k p dv) × Closed k p (di_close (di_open k p dv).1 p fd)
di_close-di_open k p dv fd small idle lt free used =
    let found = first_fd (k.pcb_table p).opened_dv fd lt free used in
    let k1 = set_irc (set_opened (owned k p dv) p fd (some dv)) p fd in
    let e : di_open k p dv ≡ (Drv.done, k1) = di_open_lem k p dv fd found lt small idle in
    let o = Opened-set_opened k p dv fd in
    let c = di_close_lem k1 p dv fd (o.descriptors fd ∙ rw (==_refl fd) refl) lt in
    let closed = λ (i : ℕ). Closed-set_opened k1 p fd i in
    let kept = λ (i : ℕ).
      released (k.pcb_table p).opened_dv (k1.pcb_table p).opened_dv dv fd i free
        (o.descriptors i) in
    (
      subst (Opened k p dv fd) (sym e) o,
      subst (Closed k p) (sym (ap (λ r. di_close r.1 p fd) e ∙ c)) (record {
        answer = refl;
        result = (closed 0).0;
        descriptors = λ i. (closed i).1 ∙ kept i;
        owner = (closed 0).2;
      }),
    )
