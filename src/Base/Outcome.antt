-- ===== src/Base/Outcome.antt =====
-- What a piece of kernel code does: it returns, calls `abort`, goes through a NULL pointer, or
-- is still in a loop when the rounds given to it are used up.
use mathlib.Core.Path.{◌≡◌}

pub data Run {ℓ} (A : Type ℓ) : Type ℓ where
  ok : A → Run A
  aborted : Run A
  fault : Run A
  out_of_fuel : Run A

infixl 5 ◌>>=◌
abbrev pub ◌>>=◌ {ℓ κ} : {A : Type ℓ} {B : Type κ} → Run A → (A → Run B) → Run B
ok a >>= f = f a
aborted >>= f = aborted
fault >>= f = fault
out_of_fuel >>= f = out_of_fuel

-- The run returns, and its result satisfies `P`.
abbrev pub Returns {ℓ κ} : {A : Type ℓ} → (A → Type κ) → Run A → Type (ℓ ⊔ κ)
Returns {A} P r = (a : A) × (r ≡ ok a) × P a

pub bind_ok {ℓ κ} :
    {A : Type ℓ} {B : Type κ} (r : Run A) (a : A) (f : A → Run B) → r ≡ ok a → (r >>= f) ≡ f a
bind_ok r a f e = λ i. e i >>= f
