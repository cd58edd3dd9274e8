-- ===== src/Sleep/Insert.antt =====
-- `sleep` of c/sleep.c, on the list of the times.
use cs415_a.Base.{
  ℕ, zero, suc, ◌+◌, ◌-◌, ◌<◌, ◌≤◌, ◌/◌, ◌!=◌, ◌^◌, true, false, leb, ◌==◌, none, some, List, [],
  ◌∷◌, length, ◌≡◌, ◌∙◌, refl, ap, inl, inr, arith, Returns, Bool-cases, ==_refl,
}
use cs415_a.Base.Word.{sub32}
use cs415_a.Kernel.{Kernel, State, Slot, read_slot}
use cs415_a.Kernel.Slots.{slot_eq, slot_eq_comm, slot_eq_refl}
use cs415_a.Queue.{queue_fuel}
use cs415_a.Queue.Chain.{Chain, Apart, Apart-head, Distinct, SameNext, Chain-frame}
use cs415_a.Sleep.{find_delta, insert_sleeper, sleep, ticks}
use cs415_a.Sleep.Times.{
  delta_of, times, insert_time, SameDelta, times-SameDelta, read-insert_sleeper, delta_last,
  delta_between, ticks_lem, state-insert_sleeper,
}

-- Every delta of the list is a 32-bit number.
abbrev pub Bounded : Kernel → List ℕ → Type 0
Bounded k [] = Unit
Bounded k (p ∷ ps) = (delta_of k p < 2 ^ 32) × Bounded k ps

-- What holds after the insertion at the slot `w`, found in the list from the slot `s` on.
record Inserted (k : Kernel) (s : Slot) (p : ℕ) (ps : List ℕ) (base time : ℕ) (w : Slot) (d : ℕ)
    : Type 0 where
  queue : List ℕ
  chain : Chain (insert_sleeper k p w d) s queue
  times_in : times (insert_sleeper k p w d) base queue ≡ insert_time p time (times k base ps)
  place : (t : Slot) → slot_eq s t ≡ false → Apart t ps → slot_eq w t ≡ false
  deltas :
      (i : ℕ)
      → (p == i) ≡ false
      → Apart (Slot.next_slot i) ps
      → delta_of (insert_sleeper k p w d) i ≡ delta_of k i

module _ (k : Kernel) (p : ℕ) where
  insert_last :
      (s : Slot) (base d : ℕ)
      → read_slot k s ≡ none
      → slot_eq s (Slot.next_slot p) ≡ false
      → Inserted k s p [] base (base + d) s d
  insert_last s base d e f =
      let new : delta_of (insert_sleeper k p s d) p ≡ d = delta_last k p s d p e ∙ rw (==_refl p) in
      record {
        queue = p ∷ [];
        chain = (
          read-insert_sleeper k p s s d ∙ rw (slot_eq_refl s),
          read-insert_sleeper k p s (Slot.next_slot p) d ∙ rw (f, ==_refl p, e),
        );
        times_in = λ i. (p, base + new i) ∷ [];
        place = λ t g _. g;
        deltas = λ i g _. delta_last k p s d i e ∙ rw g;
      }

  same_outside :
      (w : Slot) (d : ℕ) (qs : List ℕ)
      → Apart w qs
      → Apart (Slot.next_slot p) qs
      → SameNext k (insert_sleeper k p w d) qs
  same_outside w d [] a b = tt
  same_outside w d (q ∷ qs) a b = (
    read-insert_sleeper k p w (Slot.next_slot q) d
        ∙ rw (
          slot_eq_comm w (Slot.next_slot q) ∙ a.0,
          slot_eq_comm (Slot.next_slot p) (Slot.next_slot q) ∙ b.0,
        ),
    same_outside w d qs a.1 b.1,
  )

  module _ (s : Slot) (x d : ℕ) (e : read_slot k s ≡ some x) (ne : (p == x) ≡ false) where
    same_deltas :
        (qs : List ℕ)
        → Apart (Slot.next_slot x) qs
        → Apart (Slot.next_slot p) qs
        → SameDelta k (insert_sleeper k p s d) qs
    same_deltas [] a b = tt
    same_deltas (q ∷ qs) a b = (
      delta_between k p x s d q e ne
          ∙ rw (
            slot_eq_comm (Slot.next_slot x) (Slot.next_slot q) ∙ a.0,
            slot_eq_comm (Slot.next_slot p) (Slot.next_slot q) ∙ b.0,
          ),
      same_deltas qs a.1 b.1,
    )

    new_delta : delta_of (insert_sleeper k p s d) p ≡ d
    new_delta = delta_between k p x s d p e ne ∙ ground arith

    reduced_delta :
        d < delta_of k x
        → delta_of k x < 2 ^ 32
        → delta_of (insert_sleeper k p s d) x ≡ delta_of k x - d
    reduced_delta lt bound = delta_between k p x s d x e ne ∙ rw (==_refl x) (omega arith)

    insert_between :
        (ps : List ℕ) (base : ℕ)
        → Chain k (Slot.next_slot x) ps
        → Apart s (x ∷ ps)
        → Distinct (x ∷ ps)
        → Apart (Slot.next_slot p) (x ∷ ps)
        → slot_eq s (Slot.next_slot p) ≡ false
        → d < delta_of k x
        → delta_of k x < 2 ^ 32
        → Inserted k s p (x ∷ ps) base (base + d) s d
    insert_between ps base c a dis b f lt bound =
        let k' = insert_sleeper k p s d in
        let same = same_outside s d (x ∷ ps) a b in
        let later : leb (base + delta_of k x) (base + d) ≡ false = ground arith in
        let time : base + delta_of k' p + delta_of k' x ≡ base + delta_of k x =
          omega (arith, new_delta, reduced_delta lt bound) in
        record {
          queue = p ∷ x ∷ ps;
          chain = (
            read-insert_sleeper k p s s d ∙ rw (slot_eq_refl s),
            (
              read-insert_sleeper k p s (Slot.next_slot p) d ∙ rw (f, ==_refl p, e),
              Chain-frame k k' (Slot.next_slot x) ps same.0 same.1 c,
            ),
          );
          times_in = rw later (λ i.
              (p, base + new_delta i)
              ∷ (x, time i)
              ∷ times-SameDelta k k' (base + delta_of k x) (base + delta_of k' p + delta_of k' x) ps
                  time (same_deltas ps dis.0 b.1) i);
          place = λ t g _. g;
          deltas = λ i g h. delta_between k p x s d i e ne ∙ rw (h.0, g);
        }

  insert_later :
      (s : Slot) (x : ℕ) (ps : List ℕ) (base time : ℕ) (w : Slot) (d : ℕ)
      → read_slot k s ≡ some x
      → Apart s (x ∷ ps)
      → Distinct (x ∷ ps)
      → Apart (Slot.next_slot p) (x ∷ ps)
      → slot_eq s (Slot.next_slot p) ≡ false
      → base + delta_of k x ≤ time
      → Inserted k (Slot.next_slot x) p ps (base + delta_of k x) time w d
      → Inserted k s p (x ∷ ps) base time w d
  insert_later s x ps base time w d e a dis b f le r =
      let k' = insert_sleeper k p w d in
      let kept : delta_of k' x ≡ delta_of k x =
        r.deltas x (slot_eq_comm (Slot.next_slot p) (Slot.next_slot x) ∙ b.0) dis.0 in
      let later : leb (base + delta_of k x) time ≡ true = ground arith in
      record {
        queue = x ∷ r.queue;
        chain = (
          read-insert_sleeper k p w s d
              ∙ rw (r.place s a.0 a.1, slot_eq_comm (Slot.next_slot p) s ∙ f) e,
          r.chain,
        );
        times_in = rw later (
            ap (λ t. (x, base + t) ∷ times k' (base + t) r.queue) kept
            ∙ ap (λ l. (x, base + delta_of k x) ∷ l) r.times_in);
        place = λ t g h. r.place t h.0 h.1;
        deltas = λ i g h. r.deltas i g h.1;
      }

  -- The loop finds the place, whatever slot of the list it starts at.
  find_delta-Inserted :
      (fuel : ℕ) (s : Slot) (ps : List ℕ) (base d : ℕ)
      → Chain k s ps
      → Apart s ps
      → Distinct ps
      → Apart (Slot.next_slot p) ps
      → slot_eq s (Slot.next_slot p) ≡ false
      → Bounded k ps
      → d < 2 ^ 32
      → length ps < fuel
      → Returns (λ (w, d'). Inserted k s p ps base (base + d) w d') (find_delta fuel k s d)
  unfolding find_delta
  find_delta-Inserted zero s ps base d c a dis b f bound bd h = elim h [ ]
  find_delta-Inserted (suc fuel) s [] base d c a dis b f bound bd h =
      ((s, d), rw (c, find_delta), insert_last s base d c f)
  find_delta-Inserted (suc fuel) s (x ∷ ps) base d c a dis b f bound bd h =
      elim (Bool-cases (leb (delta_of k x) d)) [
        | inl go ↦
            let rest = sub32 d (delta_of k x) in
            let left : base + delta_of k x + rest ≡ base + d = ground (arith, bound.0) in
            let (r, e, found) =
              find_delta-Inserted fuel (Slot.next_slot x) ps (base + delta_of k x) rest c.1 dis.0
                dis.1 b.1 b.0 bound.1 (omega arith) (omega arith) in
            (
              r,
              rw (c.0, find_delta) (rw go e),
              insert_later s x ps base (base + d) r.0 r.1 c.0 a dis b f (ground arith)
                  (rw left at found),
            )
        | inr stop ↦ (
          (s, d),
          rw (c.0, find_delta) (rw stop),
          insert_between s x d c.0 (slot_eq_comm (Slot.next_slot p) (Slot.next_slot x) ∙ b.0) ps
              base c.1 a dis b f (ground arith) bound.0,
        )
      ]

-- The sleep list is a chain of distinct processes, fewer than 257, with 32-bit deltas, and `p` is
-- not one of them. Then putting `p` to sleep for at least a millisecond, and less than 2 ^ 32 of
-- them, returns. It inserts `p` behind the processes that are woken no later, with the milliseconds
-- rounded up to ticks, and leaves the times of all others as they were; `p` is SLEEPING.
pub sleep-inserts :
    (k : Kernel) (p ms : ℕ) (ps : List ℕ)
    → Chain k Slot.sleep_slot ps
    → Distinct ps
    → Apart (Slot.next_slot p) ps
    → Bounded k ps
    → length ps < queue_fuel
    → 0 < ms
    → ms < 2 ^ 32
    → Returns
        (λ k'.
          (qs : List ℕ) × Chain k' Slot.sleep_slot qs
          × (times k' 0 qs ≡ insert_time p ((ms + 9) / 10) (times k 0 ps))
          × ((k'.pcb_table p).state ≡ State.sleeping))
        (sleep k p ms)
unfolding sleep
sleep-inserts k p ms ps c dis b bound h pos small =
    let some_ticks : (ticks ms != 0) ≡ true = ground (arith, ticks_lem ms) in
    let ((w, d), e, r) =
      find_delta-Inserted k p queue_fuel Slot.sleep_slot ps 0 (ticks ms) c
        (Apart-head Slot.sleep_slot (λ i. refl) ps) dis b refl bound (omega (arith, ticks_lem ms))
        h in
    (
      insert_sleeper k p w d,
      rw some_ticks (rw e),
      (
        r.queue,
        r.chain,
        r.times_in ∙ ap (λ t. insert_time p t (times k 0 ps)) (omega (arith, ticks_lem ms)),
        state-insert_sleeper k p w d,
      ),
    )
