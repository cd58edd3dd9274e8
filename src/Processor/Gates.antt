-- ===== src/Processor/Gates.antt =====
-- The gates of c/evec.c, and what the processor reads in them.
use cs415_a.Base.{
  ℕ, zero, suc, ◌+◌, ◌*◌, ◌<◌, ◌≤◌, ◌^◌, ◌≡◌, eq_of_==, ◌∙◌, refl, ◌==◌, leb, ltb, ◌&&◌,
  if◌then◌else◌, List, arith, inl, inr, Bool-cases, false,
}
use mathlib.Core.Path.{subst}
use native.Mathlib.Decide.{dec_lt}
use cs415_a.Processor.{Gate, set_evec, set_all, initevec}

-- An interrupt at the gate goes to the handler, in the kernel's code segment and at level 0.
pub record Leads (g : Gate) (handler : ℕ) : Type 0 where
  pub address : g.hoffset * 2 ^ 16 + g.loffset ≡ handler
  pub segment : g.segsel ≡ 8
  pub trap : g.type ≡ 15
  pub level : g.dpl ≡ 0
  pub present : g.present ≡ 1

pub Leads-set_evec :
    (x handler : ℕ) (idt : ℕ → Gate) → handler < 2 ^ 32 → Leads (set_evec x handler idt x) handler
unfolding set_evec
Leads-set_evec x handler idt lt = record {
  address = ground arith;
  segment = ground arith;
  trap = ground arith;
  level = ground arith;
  present = ground arith;
}

pub set_evec_ne :
    (x y handler : ℕ) (idt : ℕ → Gate) → (x == y) ≡ false → set_evec x handler idt y ≡ idt y
unfolding set_evec
set_evec_ne x y handler idt e = rw e refl

set_all_outside :
    (rounds i : ℕ) (defevec : ℕ → ℕ) (idt : ℕ → Gate) (x : ℕ)
    → (leb i x && ltb x (i + rounds)) ≡ false
    → set_all rounds i defevec idt x ≡ idt x
unfolding set_all
set_all_outside zero i defevec idt x e = refl
set_all_outside (suc rounds) i defevec idt x e =
    set_all_outside rounds (i + 1) defevec (set_evec i (defevec i) idt) x (ground arith)
    ∙ set_evec_ne i x (defevec i) idt (ground arith)

Leads-set_all :
    (rounds i : ℕ) (defevec : ℕ → ℕ) (idt : ℕ → Gate) (x : ℕ)
    → i ≤ x
    → x < i + rounds
    → defevec x < 2 ^ 32
    → Leads (set_all rounds i defevec idt x) (defevec x)
unfolding set_all
Leads-set_all zero i defevec idt x ge lt small = absurd (omega arith)
Leads-set_all (suc rounds) i defevec idt x ge lt small = elim (dec_lt i x) [
  | yes more ↦
      Leads-set_all rounds (i + 1) defevec (set_evec i (defevec i) idt) x (omega arith)
        (omega arith) small
  | no same ↦
      let e : i ≡ x = omega arith in
      let kept =
        set_all_outside rounds (i + 1) defevec (set_evec i (defevec i) idt) x (ground arith) in
      rw (kept, e) (Leads-set_evec x (defevec x) idt small)
]

set_evec-Leads :
    (x y handler : ℕ) (idt : ℕ → Gate)
    → handler < 2 ^ 32
    → if y == x
      then Leads (set_evec y handler idt x) handler
      else (set_evec y handler idt x ≡ idt x)
set_evec-Leads x y handler idt lt = elim (Bool-cases (y == x)) [
  | inl same ↦ rw same (
      subst (λ z. Leads (set_evec y handler idt z) handler) (eq_of_== y x same)
        (Leads-set_evec y handler idt lt))
  | inr other ↦ rw other (set_evec_ne y x handler idt other)
]

-- The vector at `x` and the handler are 32-bit addresses. If `x` is one of the first 48 gates, then
-- `initevec` makes it lead to its vector, and otherwise it leaves the gate as `memset` left it; a
-- `set_evec` behind it makes the gate that it names lead to the handler, and no other.
pub initevec-Leads :
    (memset : (ℕ → Gate) → ℕ → Gate) (defevec : ℕ → ℕ) (idt : ℕ → Gate) (ports : List (ℕ × ℕ))
    → (x y handler : ℕ) → defevec x < 2 ^ 32
    → handler < 2 ^ 32
    → let (idt', _) = initevec memset defevec (idt, ports) in
      (if ltb x 48 then Leads (idt' x) (defevec x) else (idt' x ≡ memset idt x))
      × (if y == x
          then Leads (set_evec y handler idt' x) handler
          else (set_evec y handler idt' x ≡ idt' x))
unfolding initevec
initevec-Leads memset defevec idt ports x y handler small lt =
    let idt' = set_all 48 0 defevec (memset idt) in
    (
      elim (Bool-cases (ltb x 48)) [
        | inl low ↦
            rw low (Leads-set_all 48 0 defevec (memset idt) x (omega arith) (ground arith) small)
        | inr high ↦ rw high (set_all_outside 48 0 defevec (memset idt) x (ground arith))
      ],
      set_evec-Leads x y handler idt' lt,
    )
