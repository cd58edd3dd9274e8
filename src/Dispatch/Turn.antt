-- ===== src/Dispatch/Turn.antt =====
-- One round of the loop of c/disp.c for a process that yields.
use mathlib.Core.Path.{subst}
use cs415_a.Base.{
  ℕ, ◌+◌, ◌<◌, ◌≡◌, ◌∙◌, refl, ap, false, ◌==◌, Option, none, some, List, [], ◌∷◌, ◌++◌, length,
  length-append, arith, Run, ok, Returns, if◌then◌else◌, inl, inr, Bool-cases, ◌>>=◌,
}
use cs415_a.Kernel.{Kernel, Slot}
use cs415_a.Kernel.Slots.{slot_eq}
use cs415_a.Image.{Image}
use cs415_a.Queue.{queue_fuel, ready}
use cs415_a.Kernel.Slots.{slot_eq_comm}
use cs415_a.Queue.Chain.{Chain, Apart, Distinct, Chain-frame, SameNext-all}
use cs415_a.Queue.Ready.{ready-append}
use cs415_a.Dispatch.{Trap, Request, enter, return_value, start, handle, serve, run, choose}
use cs415_a.Dispatch.Choose.{pick, choose-pick}
use cs415_a.Dispatch.Links.{
  IsYield, entered, enter_lem, read_slot-entered, idle-entered, read_slot-start, idle-start,
  KeepsIdle, idle-ready, Chosen, idle-choose,
}

Apart-snoc :
    (q p : ℕ) (xs : List ℕ)
    → Apart (Slot.next_slot q) xs
    → slot_eq (Slot.next_slot p) (Slot.next_slot q) ≡ false
    → Apart (Slot.next_slot q) (xs ++ (p ∷ []))
Apart-snoc q p [] a e = (e, tt)
Apart-snoc q p (x ∷ xs) a e = (a.0, Apart-snoc q p xs a.1 e)

Distinct-snoc : (p : ℕ) (xs : List ℕ) → Distinct (p ∷ xs) → Distinct (xs ++ (p ∷ []))
Distinct-snoc p [] d = (tt, tt)
Distinct-snoc p (x ∷ xs) d = (
  Apart-snoc x p xs d.1.0 (slot_eq_comm (Slot.next_slot p) (Slot.next_slot x) ∙ d.0.0),
  Distinct-snoc p xs (d.0.1, d.1.1),
)

-- A choice from `n` distinct processes leaves distinct processes, one fewer.
abbrev Picked : ℕ → Option ℕ × List ℕ → Type 0
Picked n (none, ps) = Unit
Picked n (some q, ps) = Distinct (q ∷ ps) × (length ps + 1 ≡ n)

pick-Picked : (idle : ℕ) (ps : List ℕ) → Distinct ps → Picked (length ps) (pick idle ps)
pick-Picked idle [] d = tt
pick-Picked idle (p ∷ []) d = (d, refl)
pick-Picked idle (p ∷ q ∷ qs) d = elim (Bool-cases (p == idle)) [
  | inl here ↦ rw here (Distinct-snoc p (q ∷ qs) d, omega (arith, length-append qs (p ∷ [])))
  | inr away ↦ rw away (d, omega arith)
]

-- Process `p` runs, `ps` are ready, and they are distinct and fewer than the PCBs.
pub record Turn (k : Kernel) (idle p : ℕ) (ps : List ℕ) : Type 0 where
  pub idle_known : k.idle ≡ some idle
  pub queue : Chain k Slot.ready_slot ps
  pub distinct : Distinct (p ∷ ps)
  pub few : length ps + 1 < queue_fuel

-- The yield of `p` from the trap to the switch.
module _ (k : Kernel) (idle p : ℕ) (ps : List ℕ) (t : Trap) (v : Turn k idle p ps) where
  yielded_queue : Chain (entered k p t) Slot.ready_slot ps
  yielded_queue =
      Chain-frame k (entered k p t) Slot.ready_slot ps (read_slot-entered k p t Slot.ready_slot)
        (SameNext-all k (entered k p t) ps (λ i. read_slot-entered k p t (Slot.next_slot i)))
        v.queue

  yield-picks :
      Returns
        (λ (chosen, k').
          (chosen ≡ (pick idle (ps ++ (p ∷ []))).0)
          × Chain k' Slot.ready_slot (pick idle (ps ++ (p ∷ []))).1
          × (k'.idle ≡ some idle))
        (ready (entered k p t) p >>= choose)
  yield-picks =
      let (k2, e, a) =
        ready-append (entered k p t) p ps yielded_queue v.distinct.1 v.distinct.0
          (omega (arith, v.few)) in
      let i : k2.idle ≡ some idle =
        subst (KeepsIdle Kernel (λ k'. k') (entered k p t).idle) e (idle-ready (entered k p t) p)
        ∙ idle-entered k p t
        ∙ v.idle_known in
      let (r, e', c) =
        choose-pick k2 idle (ps ++ (p ∷ [])) i a.queue (Distinct-snoc p ps v.distinct)
          (omega (arith, v.few, length-append ps (p ∷ []))) in
      (r, rw e e', (c.0, c.1, subst (Chosen k2.idle) e' (idle-choose k2) ∙ i))

-- Who runs, and who is ready, after `p` has yielded to `ps`. The idle process goes behind all others.
abbrev pub next_turn : (idle p : ℕ) → List ℕ → ℕ × List ℕ
next_turn idle p [] = (p, [])
next_turn idle p (q ∷ []) = if q == idle then (p, q ∷ []) else (q, p ∷ [])
next_turn idle p (q ∷ r ∷ rs) =
    if q == idle then (r, (rs ++ (p ∷ [])) ++ (q ∷ [])) else (q, r ∷ (rs ++ (p ∷ [])))

pick-next_turn :
    (idle p : ℕ) (ps : List ℕ)
    → pick idle (ps ++ (p ∷ [])) ≡ (some (next_turn idle p ps).0, (next_turn idle p ps).1)
pick-next_turn idle p [] = refl
pick-next_turn idle p (q ∷ []) = ground arith
pick-next_turn idle p (q ∷ r ∷ rs) = ground arith

-- What follows the switch.
abbrev go_on : Image → List Trap → Option ℕ × Kernel → Run (Option ℕ × Kernel)
go_on image ts (chosen, k) = elim chosen [
  | none ↦ ok (none, k)
  | some q ↦ run image (start image k q) q ts
]

run_entered :
    (image : Image) (k k1 : Kernel) (p : ℕ) (t : Trap) (ts : List Trap)
    → enter (return_value k p) p t ≡ (some Request.yield, k1)
    → run image k p (t ∷ ts) ≡ serve image k1 p (some Request.yield) >>= go_on image ts
unfolding run
run_entered image k k1 p t ts e =
    ap
      (λ (x : Option Request × Kernel). elim (x.0) as (λ _. Run (Option ℕ × Kernel)) [
        | some Request.time_int ↦ run image x.1 p ts
        | _ ↦ serve image x.1 p x.0 >>= go_on image ts
      ])
      e

pub run-yield :
    (image : Image) (k : Kernel) (idle p : ℕ) (ps : List ℕ) (t : Trap)
    → Turn k idle p ps
    → IsYield t
    → (k' : Kernel) × ((ts : List Trap)
        → run image k p (t ∷ ts) ≡ run image k' (next_turn idle p ps).0 ts)
      × Turn k' idle (next_turn idle p ps).0 (next_turn idle p ps).1
unfolding serve handle
run-yield image k idle p ps t v y =
    let (r, e, (chosen, queue, i)) = yield-picks k idle p ps t v in
    let q = (next_turn idle p ps).0 in
    let qs = (next_turn idle p ps).1 in
    let picks = pick-next_turn idle p ps in
    let same : r ≡ (some q, r.1) = λ j. ((chosen ∙ ap (λ x. x.0) picks) j, r.1) in
    let k' = start image r.1 q in
    let queue' : Chain r.1 Slot.ready_slot qs =
      subst (λ x. Chain r.1 Slot.ready_slot x.1) picks queue in
    let kept : Distinct (q ∷ qs) × (length qs + 1 ≡ length (ps ++ (p ∷ []))) =
      subst (Picked (length (ps ++ (p ∷ [])))) picks
        (pick-Picked idle (ps ++ (p ∷ [])) (Distinct-snoc p ps v.distinct)) in
    (
      k',
      λ ts.
          run_entered image k (entered k p t) p t ts (enter_lem k p t y)
          ∙ ap (λ x. x >>= go_on image ts) (e ∙ ap ok same),
      record {
        idle_known = idle-start image r.1 q ∙ i;
        queue =
            Chain-frame r.1 k' Slot.ready_slot qs (read_slot-start image r.1 q Slot.ready_slot)
              (SameNext-all r.1 k' qs (λ j. read_slot-start image r.1 q (Slot.next_slot j))) queue';
        distinct = kept.0;
        few = omega (arith, v.few, kept.1, length-append ps (p ∷ []));
      },
    )
