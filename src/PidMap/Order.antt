-- ===== src/PidMap/Order.antt =====
-- The search-tree order of the PID map (c/disp.c).
use cs415_a.Base.{ℕ, ◌<◌, ◌≡◌, ◌≢◌, none, arith, refl}
use cs415_a.PidMap.{Tree, leaf, node, lookup}

-- Every PID of the tree satisfies `P`.
abbrev pub All : (ℕ → Type 0) → Tree → Type 0
All P leaf = Unit
All P (node at p i l r h) = All P l × P p × All P r

abbrev pub Below : ℕ → Tree → Type 0
Below b t = All (λ x. x < b) t

abbrev pub Above : ℕ → Tree → Type 0
Above b t = All (λ x. b < x) t

abbrev pub IsOrdered : Tree → Type 0
IsOrdered leaf = Unit
IsOrdered (node at p i l r h) = Below p l × Above p r × IsOrdered l × IsOrdered r

pub All-imp : {P Q : ℕ → Type 0} → ((x : ℕ) → P x → Q x) → (t : Tree) → All P t → All Q t
All-imp f leaf a = tt
All-imp f (node at p i l r h) (a, b, c) = (All-imp f l a, f p b, All-imp f r c)

-- A PID that the tree does not hold is not found.
pub lookup-absent : (t : Tree) (q : ℕ) → All (λ x. x ≢ q) t → lookup t q ≡ none
unfolding lookup
lookup-absent leaf q a = refl
lookup-absent (node at p i l r h) q a = ground (arith, lookup-absent l q a.0, lookup-absent r q a.2)
