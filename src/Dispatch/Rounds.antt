-- ===== src/Dispatch/Rounds.antt =====
-- The loop of c/disp.c when the processes do nothing but yield.
use mathlib.Core.Path.{subst}
use mathlib.Core.List.{append_assoc}
use cs415_a.Base.{
  ℕ, ◌<◌, ◌≡◌, ◌≢◌, ◌∙◌, refl, ap, true, false, ◌==◌, ==_ne, some, List, [], ◌∷◌, ◌++◌, length,
  arith, Returns, inl, inr, Bool-cases,
}
use cs415_a.Kernel.{Kernel}
use cs415_a.Image.{Image}
use cs415_a.Dispatch.{Trap, run}
use cs415_a.Dispatch.Links.{IsYield}
use cs415_a.Dispatch.Turn.{Turn, next_turn, run-yield}

next_turn-other :
    (idle p q : ℕ) (qs : List ℕ)
    → (q == idle) ≡ false
    → next_turn idle p (q ∷ qs) ≡ (q, qs ++ (p ∷ []))
next_turn-other idle p q [] e = rw e refl
next_turn-other idle p q (r ∷ rs) e = rw e refl

next_turn-idle :
    (idle p i q : ℕ) (qs : List ℕ)
    → (i == idle) ≡ true
    → next_turn idle p (i ∷ q ∷ qs) ≡ (q, qs ++ (p ∷ i ∷ []))
next_turn-idle idle p i q qs e = rw e (λ j. (q, append_assoc qs (p ∷ []) (i ∷ []) j))

abbrev pub AllYield : List Trap → Type 0
AllYield [] = Unit
AllYield (t ∷ ts) = IsYield t × AllYield ts

-- Some of the first traps lead to `q`.
abbrev pub Reaches : Image → Kernel → (p q : ℕ) → List Trap → Type 0
Reaches image k p q ts =
    (us : List Trap) × (vs : List Trap) × (ts ≡ us ++ vs)
    × Returns (λ (chosen, k'). chosen ≡ some q) (run image k p us)

-- One yield leads to the next turn; that is `q` itself or leads to it.
Reaches-next :
    (image : Image) (k : Kernel) (idle p q : ℕ) (ps : List ℕ) (t : Trap) (ts : List Trap)
    → Turn k idle p ps
    → IsYield t
    → (x : ℕ × List ℕ) → next_turn idle p ps ≡ x
    → ((k' : Kernel) → Turn k' idle x.0 x.1 → Reaches image k' x.0 q ts)
    → Reaches image k p q (t ∷ ts)
Reaches-next image k idle p q ps t ts v y x e reached =
    let (k', e', v') = run-yield image k idle p ps t v y in
    let (us, vs, split, (r, run', here)) = reached k' (subst (λ z. Turn k' idle z.0 z.1) e v') in
    (t ∷ us, vs, ap (λ l. t ∷ l) split, (r, e' us ∙ ap (λ z. run image k' z.0 us) e ∙ run', here))

reach_now : (image : Image) (k : Kernel) (q : ℕ) (ts : List Trap) → Reaches image k q q ts
unfolding run
reach_now image k q ts = ([], ts, refl, ((some q, k), refl, refl))

-- Process `p` runs, and every process that runs traps to yield. In the ready queue of distinct
-- processes, fewer than the PCBs, `q`, which is not the idle process, has the processes `before`
-- before it. Then `q` runs after at most one yield more than these are, and no run before fails.
pub run-Reaches :
    (image : Image) (k : Kernel) (idle p : ℕ) (before : List ℕ) (q : ℕ) (behind : List ℕ)
    → (ts : List Trap) → Turn k idle p (before ++ (q ∷ behind))
    → q ≢ idle
    → AllYield ts
    → length before < length ts
    → Reaches image k p q ts
run-Reaches image k idle p before q behind [] v ne y h = absurd (omega arith)
run-Reaches image k idle p [] q behind (t ∷ ts) v ne y h =
    Reaches-next image k idle p q (q ∷ behind) t ts v y.0 (q, behind ++ (p ∷ []))
      (next_turn-other idle p q behind (==_ne q idle ne)) (λ k' _. reach_now image k' q ts)
run-Reaches image k idle p (a ∷ []) q behind (t ∷ ts) v ne y h =
    let next = Reaches-next image k idle p q (a ∷ q ∷ behind) t ts v y.0 in
    elim (Bool-cases (a == idle)) [
      | inl here ↦
          next (q, behind ++ (p ∷ a ∷ [])) (next_turn-idle idle p a q behind here)
            (λ k' _. reach_now image k' q ts)
      | inr away ↦
          next (a, q ∷ (behind ++ (p ∷ []))) (next_turn-other idle p a (q ∷ behind) away)
            (λ k' v'.
              run-Reaches image k' idle a [] q (behind ++ (p ∷ [])) ts v' ne y.1 (omega arith))
    ]
run-Reaches image k idle p (a ∷ b ∷ before) q behind (t ∷ ts) v ne y h =
    let next = Reaches-next image k idle p q (a ∷ b ∷ (before ++ (q ∷ behind))) t ts v y.0 in
    let join = λ (l : List ℕ). append_assoc before (q ∷ behind) l in
    elim (Bool-cases (a == idle)) [
      | inl here ↦
          next (b, before ++ (q ∷ (behind ++ (p ∷ a ∷ []))))
            (next_turn-idle idle p a b (before ++ (q ∷ behind)) here
              ∙ ap (λ l. (b, l)) (join (p ∷ a ∷ [])))
            (λ k' v'.
              run-Reaches image k' idle b before q (behind ++ (p ∷ a ∷ [])) ts v' ne y.1
                (omega arith))
      | inr away ↦
          next (a, b ∷ (before ++ (q ∷ (behind ++ (p ∷ [])))))
            (next_turn-other idle p a (b ∷ (before ++ (q ∷ behind))) away
              ∙ ap (λ l. (a, b ∷ l)) (join (p ∷ [])))
            (λ k' v'.
              run-Reaches image k' idle a (b ∷ before) q (behind ++ (p ∷ [])) ts v' ne y.1
                (omega arith))
    ]
