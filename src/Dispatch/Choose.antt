-- ===== src/Dispatch/Choose.antt =====
-- The choice of the next process at the bottom of the loop of c/disp.c.
use cs415_a.Base.{
  ℕ, ◌<◌, ◌==◌, if◌then◌else◌, Option, none, some, List, [], ◌∷◌, ◌++◌, length, ◌≡◌, ◌∙◌, refl, sym,
  ap, inl, inr, arith, Returns, Bool-cases, eq_of_==,
}
use cs415_a.Kernel.{Kernel, Slot, read_slot}
use cs415_a.Queue.{next, queue_fuel}
use cs415_a.Queue.Chain.{Chain, Distinct}
use cs415_a.Queue.Ready.{ready-append, next-pops}
use cs415_a.Dispatch.{choose, choose_first, choose_other}

-- The process to run and the ready queue that is left: the idle process goes behind all others.
abbrev pub pick : (idle : ℕ) → List ℕ → Option ℕ × List ℕ
pick idle [] = (none, [])
pick idle (p ∷ []) = (some p, [])
pick idle (p ∷ q ∷ qs) = if p == idle then (some q, qs ++ (p ∷ [])) else (some p, q ∷ qs)

next_empty : (k : Kernel) → read_slot k Slot.ready_slot ≡ none → next k ≡ (none, k)
unfolding next read_slot
next_empty k e = ground arith

module _ (k : Kernel) (idle : ℕ) (i : k.idle ≡ some idle) where
  pub choose_lem : (r : Option ℕ × Kernel) → next k ≡ r → choose k ≡ choose_first (some idle) r
  unfolding choose
  choose_lem r e = λ j. choose_first (i j) (e j)

-- The ready queue is a chain of distinct processes, fewer than 257, and there is an idle process.
-- Then the choice returns. It takes the first process of the queue; but if that is the idle process
-- and there is another, it takes the second, and the idle process is put at the end of the queue.
pub choose-pick :
    (k : Kernel) (idle : ℕ) (ps : List ℕ)
    → k.idle ≡ some idle
    → Chain k Slot.ready_slot ps
    → Distinct ps
    → length ps < queue_fuel
    → Returns
        (λ (chosen, k'). (chosen ≡ (pick idle ps).0) × Chain k' Slot.ready_slot (pick idle ps).1)
        (choose k)
unfolding choose_first choose_other
choose-pick k idle [] i c d h =
    ((none, k), choose_lem k idle i (none, k) (next_empty k c), (refl, c))
choose-pick k idle (p ∷ []) i c d h =
    let (k1, e1, c1, _) = next-pops k p [] c d in
    elim (Bool-cases (p == idle)) [
      | inl here ↦ (
        (some idle, k1),
        choose_lem k idle i (some p, k1) e1 ∙ rw here (ap (choose_other idle) (next_empty k1 c1)),
        (ap some (sym (eq_of_== p idle here)), c1),
      )
      | inr away ↦ ((some p, k1), choose_lem k idle i (some p, k1) e1 ∙ rw away refl, (refl, c1))
    ]
choose-pick k idle (p ∷ q ∷ qs) i c d h =
    let (k1, e1, c1, _) = next-pops k p (q ∷ qs) c d in
    let (k2, e2, c2, _) = next-pops k1 q qs c1 d.1 in
    elim (Bool-cases (p == idle)) [
      | inl here ↦
          let same = eq_of_== p idle here in
          let (k3, e3, a) = ready-append k2 p qs c2 d.1.1 d.0.1 (omega arith) in
          (
            (some q, k3),
            choose_lem k idle i (some p, k1) e1
                ∙ rw here (ap (choose_other idle) e2 ∙ rw (sym same, e3) refl),
            rw here (refl, a.queue),
          )
      | inr away ↦
          ((some p, k1), choose_lem k idle i (some p, k1) e1 ∙ rw away refl, rw away (refl, c1))
    ]
