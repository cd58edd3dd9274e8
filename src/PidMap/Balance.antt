-- ===== src/PidMap/Balance.antt =====
-- The balance of the AVL tree of c/disp.c, and how `insert` restores it at a node.
use cs415_a.Base.{
  ℕ, ◌+◌, ◌<◌, ◌≤◌, ◌^◌, ◌≡◌, true, false, ltb, ◌==◌, some, if◌then◌else◌, ◌⊎◌, inl, inr, arith,
  refl, ok,
}
use cs415_a.Base.Word.{sub32, lt_int, minus}
use cs415_a.PidMap.{Tree, leaf, node, height, max_height, update_height, restore, lookup}
use cs415_a.PidMap.Order.{All, IsOrdered}
use native.Mathlib.Decide.{dec_lt}

-- The heights are those of the children, which differ by at most one.
abbrev pub IsAvl : Tree → Type 0
IsAvl leaf = Unit
IsAvl (node at p i l r h) =
    (h ≡ max_height (height l) (height r) + 1)
    × (height l ≤ height r + 1)
    × (height r ≤ height l + 1)
    × IsAvl l
    × IsAvl r

pub max_height_lem :
    (a b : ℕ)
    → (a ≤ max_height a b) × (b ≤ max_height a b) × ((max_height a b ≡ a) ⊎ (max_height a b ≡ b))
max_height_lem a b = elim (dec_lt b a) [
  | yes h ↦ let e : ltb b a ≡ true = ground arith in rw e (omega arith, omega arith, inl refl)
  | no h ↦ let e : ltb b a ≡ false = ground arith in rw e (omega arith, omega arith, inr refl)
]

-- The right side is higher than the left, or the node has no children.
abbrev pub LeansRight : Tree → Type 0
LeansRight leaf = Unit
LeansRight (node at p i l r h) = (height l < height r) ⊎ (h ≡ 1)

pub restore_balanced :
    (at p i : ℕ) (l r : Tree) (h : ℕ)
    → height l < 2 ^ 30
    → height r < 2 ^ 30
    → height l ≤ height r + 1
    → height r ≤ height l + 1
    → restore (node at p i l r h) ≡ ok (node at p i l r h)
unfolding restore
restore_balanced at p i l r h hl hr a b =
    let not_left : lt_int 1 (sub32 (height l) (height r)) ≡ false = ground arith in
    let not_right : lt_int (sub32 (height l) (height r)) (minus 1) ≡ false = ground arith in
    rw (not_left, not_right)

pub restore_right :
    (at p i : ℕ) (l : Tree) (at' p' i' : ℕ) (l' r' : Tree) (h' h : ℕ)
    → height l < 2 ^ 30
    → h' ≡ height l + 2
    → height l' ≤ height r'
    → height r' < 2 ^ 30
    → restore (node at p i l (node at' p' i' l' r' h') h)
      ≡ ok (update_height at' p' i' (update_height at p i l l') r')
unfolding restore
restore_right at p i l at' p' i' l' r' h' h hl e le hr =
    let not_left : lt_int 1 (sub32 (height l) h') ≡ false = ground arith in
    let right : lt_int (sub32 (height l) h') (minus 1) ≡ true = ground arith in
    let no_turn : lt_int 0 (sub32 (height l') (height r')) ≡ false = ground arith in
    rw (not_left, right, no_turn)

pub record Grown (t : Tree) (p i : ℕ) (t' : Tree) : Type 1 where
  pub balanced : IsAvl t'
  pub ordered : IsOrdered t'
  pub maps : (q : ℕ) → lookup t' q ≡ (if p == q then some i else lookup t q)
  pub keys : (P : ℕ → Type 0) → P p → All P t → All P t'
  pub taller : (height t' ≡ height t) ⊎ ((height t' ≡ height t + 1) × LeansRight t')

-- A left rotation changes no entry of a tree in search order.
pub lookup_rotated :
    (at x j at' p' i' : ℕ) (l l' r' : Tree) (h h' h1 h2 q : ℕ)
    → x < p'
    → lookup (node at' p' i' (node at x j l l' h1) r' h2) q
      ≡ lookup (node at x j l (node at' p' i' l' r' h') h) q
unfolding lookup
lookup_rotated at x j at' p' i' l l' r' h h' h1 h2 q lt = ground arith

-- A new entry behind the root.
pub maps_right :
    (at x j : ℕ) (l r r' : Tree) (h h' p i q : ℕ)
    → x < p
    → lookup r' q ≡ (if p == q then some i else lookup r q)
    → lookup (node at x j l r' h') q ≡ (if p == q then some i else lookup (node at x j l r h) q)
unfolding lookup
maps_right at x j l r r' h h' p i q lt e = ground arith
