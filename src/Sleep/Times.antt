-- ===== src/Sleep/Times.antt =====
-- The sleep list (c/sleep.c) as the ticks left for each process.
use cs415_a.Base.{
  ℕ, ◌+◌, ◌/◌, ==_refl, false, leb, ◌==◌, if◌then◌else◌, Option, none, some, List, [], ◌∷◌, ◌≡◌,
  ◌∙◌, refl, ap, arith, ◌++◌,
}
use cs415_a.Base.Word.{sub32}
use cs415_a.Kernel.{Kernel, State, Slot, read_slot, write_slot, set_delta}
use cs415_a.Kernel.Slots.{slot_eq, read-write_slot, read_slot-set_pcb}
use cs415_a.Sleep.{insert_sleeper, reduce_delta, ticks}

abbrev pub delta_of : Kernel → ℕ → ℕ
delta_of k i = (k.pcb_table i).delta

-- Each process of the list with the ticks until it is woken; `base` are those of the one before.
abbrev pub times : Kernel → (base : ℕ) → List ℕ → List (ℕ × ℕ)
times k base [] = []
times k base (p ∷ ps) = (p, base + delta_of k p) ∷ times k (base + delta_of k p) ps

-- Behind those that are woken no later.
abbrev pub insert_time : (p time : ℕ) → List (ℕ × ℕ) → List (ℕ × ℕ)
insert_time p time [] = (p, time) ∷ []
insert_time p time ((q, t) ∷ rest) =
    if leb t time then (q, t) ∷ insert_time p time rest else (p, time) ∷ (q, t) ∷ rest

abbrev pub SameDelta : Kernel → Kernel → List ℕ → Type 0
SameDelta k k' [] = Unit
SameDelta k k' (p ∷ ps) = (delta_of k' p ≡ delta_of k p) × SameDelta k k' ps

pub SameDelta-left :
    (k k' : Kernel) (ps qs : List ℕ) → SameDelta k k' (ps ++ qs) → SameDelta k k' ps
SameDelta-left k k' [] qs s = tt
SameDelta-left k k' (p ∷ ps) qs s = (s.0, SameDelta-left k k' ps qs s.1)

pub SameDelta-right :
    (k k' : Kernel) (ps qs : List ℕ) → SameDelta k k' (ps ++ qs) → SameDelta k k' qs
SameDelta-right k k' [] qs s = s
SameDelta-right k k' (p ∷ ps) qs s = SameDelta-right k k' ps qs s.1

pub SameDelta-trans :
    (k k1 k2 : Kernel) (ps : List ℕ)
    → SameDelta k k1 ps
    → ((i : ℕ) → delta_of k2 i ≡ delta_of k1 i)
    → SameDelta k k2 ps
SameDelta-trans k k1 k2 [] s e = tt
SameDelta-trans k k1 k2 (p ∷ ps) s e = (e p ∙ s.0, SameDelta-trans k k1 k2 ps s.1 e)

pub times-SameDelta :
    (k k' : Kernel) (base base' : ℕ) (ps : List ℕ)
    → base' ≡ base
    → SameDelta k k' ps
    → times k' base' ps ≡ times k base ps
times-SameDelta k k' base base' [] e same = refl
times-SameDelta k k' base base' (p ∷ ps) e same =
    let f : base' + delta_of k' p ≡ base + delta_of k p = omega arith in
    λ i. (p, f i) ∷ times-SameDelta k k' (base + delta_of k p) (base' + delta_of k' p) ps f same.1 i

-- A write to a slot changes no delta.
pub delta-write_slot :
    (k : Kernel) (s : Slot) (v : Option ℕ) (i : ℕ) → delta_of (write_slot k s v) i ≡ delta_of k i
unfolding write_slot
delta-write_slot k Slot.ready_slot v i = refl
delta-write_slot k s v i = ground arith

read-reduce_delta :
    (k : Kernel) (o : Option ℕ) (d : ℕ) (t : Slot)
    → read_slot (reduce_delta k o d) t ≡ read_slot k t
unfolding reduce_delta
read-reduce_delta k none d t = refl
read-reduce_delta k (some q) d t =
    read_slot-set_pcb k q _ t (record { next = refl; senders = refl; receivers = refl })

pub read-insert_sleeper :
    (k : Kernel) (p : ℕ) (s t : Slot) (d : ℕ)
    → read_slot (insert_sleeper k p s d) t ≡ (
        if slot_eq s t
        then some p
        else if slot_eq (Slot.next_slot p) t
        then read_slot k s
        else read_slot k t)
unfolding insert_sleeper
read-insert_sleeper k p s t d =
    let after = read_slot k s in
    let k0 = write_slot k (Slot.next_slot p) after in
    let k1 = set_delta k0 p d in
    let k2 = reduce_delta k1 after d in
    let k3 = write_slot k2 s (some p) in
    read_slot-set_pcb k3 p _ t (record { next = refl; senders = refl; receivers = refl })
    ∙ read-write_slot k2 s t (some p)
    ∙ ap (λ o. if slot_eq s t then some p else o)
        (read-reduce_delta k1 after d t
          ∙ read_slot-set_pcb k0 p _ t (record { next = refl; senders = refl; receivers = refl })
          ∙ read-write_slot k (Slot.next_slot p) t after)

-- The delta of each process after the insertion.
pub delta-insert_sleeper :
    (k : Kernel) (p : ℕ) (s : Slot) (d i : ℕ)
    → delta_of (insert_sleeper k p s d) i
      ≡ delta_of
          (reduce_delta
            (set_delta (write_slot k (Slot.next_slot p) (read_slot k s)) p d)
            (read_slot k s)
            d)
          i
unfolding insert_sleeper
delta-insert_sleeper k p s d i = ground (
  arith,
  delta-write_slot
      (reduce_delta (set_delta (write_slot k (Slot.next_slot p) (read_slot k s)) p d)
        (read_slot k s) d)
      s (some p) i,
)

pub delta_last :
    (k : Kernel) (p : ℕ) (s : Slot) (d i : ℕ)
    → read_slot k s ≡ none
    → delta_of (insert_sleeper k p s d) i ≡ (if p == i then d else delta_of k i)
unfolding reduce_delta
delta_last k p s d i e =
    delta-insert_sleeper k p s d i
    ∙ rw e (ground (arith, delta-write_slot k (Slot.next_slot p) none i))

pub delta_between :
    (k : Kernel) (p q : ℕ) (s : Slot) (d i : ℕ)
    → read_slot k s ≡ some q
    → (p == q) ≡ false
    → delta_of (insert_sleeper k p s d) i
      ≡ (if q == i then sub32 (delta_of k q) d else if p == i then d else delta_of k i)
unfolding reduce_delta
delta_between k p q s d i e f =
    delta-insert_sleeper k p s d i
    ∙ rw e (
        ground (
          arith,
          delta-write_slot k (Slot.next_slot p) (some q) i,
          delta-write_slot k (Slot.next_slot p) (some q) q,
        ))

pub state-insert_sleeper :
    (k : Kernel) (p : ℕ) (s : Slot) (d : ℕ)
    → ((insert_sleeper k p s d).pcb_table p).state ≡ State.sleeping
unfolding insert_sleeper
state-insert_sleeper k p s d = rw ==_refl

-- The milliseconds are rounded up.
pub ticks_lem : (ms : ℕ) → ticks ms ≡ (ms + 9) / 10
unfolding ticks
ticks_lem ms = ground arith
