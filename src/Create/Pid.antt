-- ===== src/Create/Pid.antt =====
-- `getNextPid` of c/create.c, on the PIDs that the map holds.
use cs415_a.Base.{
  ℕ, zero, suc, ◌+◌, ◌<◌, ◌≤◌, ◌^◌, ◌≡◌, ◌≢◌, refl, arith, Bool, true, false, ◌||◌, ◌==◌,
  if◌then◌else◌, Option, none, some, List, [], ◌∷◌, ◌++◌, length, inl, inr, Bool-cases, ok, Returns,
}
use cs415_a.Base.Word.{add32}
use cs415_a.PidMap.{Tree, leaf, node, lookup}
use cs415_a.Kernel.{Kernel}
use cs415_a.Create.{find_pid, get_next_pid, pid_fuel}

abbrev pub keys : Tree → List ℕ
keys leaf = []
keys (node at p i l r h) = p ∷ (keys l ++ keys r)

abbrev member : ℕ → List ℕ → Bool
member x [] = false
member x (y ∷ ys) = (y == x) || member x ys

-- The list without one occurrence.
abbrev without : ℕ → List ℕ → List ℕ
without x [] = []
without x (y ∷ ys) = if y == x then ys else y ∷ without x ys

member_append : (x : ℕ) (xs ys : List ℕ) → member x (xs ++ ys) ≡ (member x xs || member x ys)
member_append x [] ys = refl
member_append x (y ∷ xs) ys = ground (arith, member_append x xs ys)

length-without :
    (x : ℕ) (xs : List ℕ) → member x xs ≡ true → suc (length (without x xs)) ≡ length xs
length-without x [] m = cc
length-without x (y ∷ ys) m = ground (arith, length-without x ys)

member-without :
    (x z : ℕ) (xs : List ℕ) → x ≢ z → member z xs ≡ true → member z (without x xs) ≡ true
member-without x z [] ne m = m
member-without x z (y ∷ ys) ne m = ground (arith, member-without x z ys ne)

abbrev is_some : Option ℕ → Bool
is_some none = false
is_some (some _) = true

member-keys : (t : Tree) (q : ℕ) → is_some (lookup t q) ≡ true → member q (keys t) ≡ true
unfolding lookup
member-keys leaf q e = e
member-keys (node at p i l r h) q e =
    ground (arith, member-keys l q, member-keys r q, member_append q (keys l) (keys r))

-- A PID that the loop skips.
abbrev taken : Tree → ℕ → Bool
taken t x = (x == 0) || is_some (lookup t x)

abbrev pub IsFree : Tree → ℕ → Type 0
IsFree t pid = (pid ≢ 0) × (pid < 2 ^ 32) × (lookup t pid ≡ none)

find_pid_skip :
    (fuel : ℕ) (t : Tree) (x : ℕ)
    → taken t x ≡ true
    → find_pid (suc fuel) t x ≡ find_pid fuel t (add32 x 1)
unfolding find_pid
find_pid_skip fuel t x e = ground arith

find_pid_stop :
    (fuel : ℕ) (t : Tree) (x : ℕ)
    → taken t x ≡ false
    → (x ≢ 0) × (lookup t x ≡ none) × (find_pid (suc fuel) t x ≡ ok x)
unfolding find_pid
find_pid_stop fuel t x e = ground arith

-- Every PID that the loop may skip is one of `bad`, which are fewer than its rounds.
find_pid-IsFree :
    (fuel : ℕ) (t : Tree) (x : ℕ) (bad : List ℕ)
    → x < 2 ^ 32
    → fuel ≤ 2 ^ 32
    → length bad < fuel
    → ((j : ℕ) → j < fuel → taken t (add32 x j) ≡ true → member (add32 x j) bad ≡ true)
    → Returns (IsFree t) (find_pid fuel t x)
find_pid-IsFree zero t x bad lt le h m = absurd (omega arith)
find_pid-IsFree (suc fuel) t x bad lt le h m = elim (Bool-cases (taken t x)) [
  | inl e ↦
      let here : add32 x 0 ≡ x = omega arith in
      let bad_x : member x bad ≡ true = rw here at (m 0 (omega arith) (rw here e)) in
      let fewer = length-without x bad bad_x in
      let later = λ (j : ℕ) (lt' : j < fuel) (e' : taken t (add32 (add32 x 1) j) ≡ true).
        let next : add32 (add32 x 1) j ≡ add32 x (j + 1) = omega arith in
        let ne : x ≢ add32 (add32 x 1) j = omega arith in
        member-without x (add32 (add32 x 1) j) bad ne
          (rw next (m (j + 1) (omega arith) (rw next at e'))) in
      rw (find_pid_skip fuel t x e) (
        find_pid-IsFree fuel t (add32 x 1) (without x bad) (omega arith) (omega arith)
          (omega (arith, fewer)) later)
  | inr e ↦ let (ne, free, stop) = find_pid_stop fuel t x e in (x, stop, (ne, lt, free))
]

taken-member : (t : Tree) (x : ℕ) → taken t x ≡ true → member x (0 ∷ keys t) ≡ true
taken-member t x e = ground (arith, member-keys t x)

-- The map holds at most 256 PIDs, and the PID to be tried first is a 32-bit word. Then the search for
-- a PID returns. It gives a 32-bit PID that is not 0 and that the map does not hold, and the next
-- search starts behind it.
pub get_next_pid-IsFree :
    (k : Kernel)
    → k.next_pid < 2 ^ 32
    → length (keys k.pid_map) ≤ 256
    → Returns
        (λ (pid, k'). IsFree k.pid_map pid × (k' ≡ record k { next_pid = add32 pid 1 }))
        (get_next_pid k)
unfolding get_next_pid pid_fuel
get_next_pid-IsFree k lt few =
    let (pid, e, free) =
      find_pid-IsFree 258 k.pid_map k.next_pid (0 ∷ keys k.pid_map) lt (omega arith) (omega arith)
        (λ j _. taken-member k.pid_map (add32 k.next_pid j)) in
    ((pid, record k { next_pid = add32 pid 1 }), rw e refl, (free, refl))
