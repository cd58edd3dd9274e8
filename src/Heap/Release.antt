-- ===== src/Heap/Release.antt =====
-- The list of the free blocks when `kfree` of c/mem.c puts one back.
use cs415_a.Base.{
  ℕ, ◌+◌, ◌<◌, ◌≤◌, ◌^◌, ◌≡◌, ◌==◌, ltb, if◌then◌else◌, List, [], ◌∷◌, ◌++◌, arith, inl, inr, refl,
  ◌⊎◌, Bool, Bool-cases, true, false, eq_of_==,
}
use cs415_a.Heap.FreeList.{Sorted, Clear}
use cs415_a.Heap.Segment.{Below}
use cs415_a.Heap.Join.{join_above, stale_above}

-- The free blocks with the block `(b, m)` in the order of the addresses, joined with the block below
-- and the block above that it adjoins.
abbrev pub put_back : (b m : ℕ) → List (ℕ × ℕ) → List (ℕ × ℕ)
put_back b m [] = (b, m) ∷ []
put_back b m ((a, n) ∷ rs) =
    if ltb b a
    then join_above b m ((a, n) ∷ rs)
    else if a + 16 + n == b
    then join_above a (n + 16 + m) rs
    else (a, n) ∷ put_back b m rs

-- The block `(b, m)` adjoins the block above it, and that is not the last of the free blocks.
abbrev pub stale : (b m : ℕ) → List (ℕ × ℕ) → Bool
stale b m [] = false
stale b m ((a, n) ∷ rs) = if ltb b a then stale_above (b + 16 + m) ((a, n) ∷ rs) else stale b m rs

Sorted-join_above :
    (lo b m : ℕ) (hs : List (ℕ × ℕ))
    → lo ≤ b
    → b + 16 + m < 2 ^ 31
    → Sorted (b + 16 + m) hs
    → Sorted lo (join_above b m hs)
Sorted-join_above lo b m [] le bound s = (le, bound, tt)
Sorted-join_above lo b m ((a, n) ∷ hs) le bound s = elim (Bool-cases (b + 16 + m == a)) [
  | inl adjoins ↦
      let e : b + 16 + m ≡ a = eq_of_== (b + 16 + m) a adjoins in
      let top : b + 16 + (m + 16 + n) ≡ a + 16 + n = omega (arith, e) in
      rw adjoins (le, omega (arith, top, s.1), rw top s.2)
  | inr apart ↦ rw apart (le, bound, (s.0, s.1, s.2))
]

-- A block that ends where the list starts lies below it.
Sorted-above :
    (b m lo : ℕ) (rs : List (ℕ × ℕ)) → b ≤ lo → Sorted lo rs → Clear b m rs → Sorted (b + 16 + m) rs
Sorted-above b m lo [] le s c = tt
Sorted-above b m lo ((a, n) ∷ rs) le s c = (omega (arith, s.0, c.0), s.1, s.2)

pub Sorted-put_back :
    (lo b m : ℕ) (rs : List (ℕ × ℕ))
    → lo ≤ b
    → b + 16 + m < 2 ^ 31
    → Sorted lo rs
    → Clear b m rs
    → Sorted lo (put_back b m rs)
Sorted-put_back lo b m [] le bound s c = (le, bound, tt)
Sorted-put_back lo b m ((a, n) ∷ rs) le bound s c = elim (Bool-cases (ltb b a)) [
  | inl below ↦
      let above : b + 16 + m ≤ a = ground (arith, c.0) in
      rw below (Sorted-join_above lo b m ((a, n) ∷ rs) le bound (above, s.1, s.2))
  | inr not_below ↦
      let behind : a + 16 + n ≤ b = ground (arith, c.0) in
      elim (Bool-cases (a + 16 + n == b)) [
        | inl adjoins ↦
            let e : a + 16 + n ≡ b = eq_of_== (a + 16 + n) b adjoins in
            let top : a + 16 + (n + 16 + m) ≡ b + 16 + m = omega (arith, e) in
            rw (not_below, adjoins)
              (Sorted-join_above lo a (n + 16 + m) rs s.0 (omega (arith, top))
                (rw top (Sorted-above b m (a + 16 + n) rs (omega (arith, e)) s.2 c.1)))
        | inr apart ↦
            rw (not_below, apart)
              (s.0, s.1, Sorted-put_back (a + 16 + n) b m rs behind bound s.2 c.1)
      ]
]

Clear-join_above :
    (c k b m : ℕ) (hs : List (ℕ × ℕ))
    → (c + 16 + k ≤ b) ⊎ (b + 16 + m ≤ c)
    → Clear c k hs
    → Clear c k (join_above b m hs)
Clear-join_above c k b m [] away cl = (away, tt)
Clear-join_above c k b m ((a, n) ∷ hs) away cl = elim (Bool-cases (b + 16 + m == a)) [
  | inl adjoins ↦
      let e : b + 16 + m ≡ a = eq_of_== (b + 16 + m) a adjoins in
      rw adjoins (omega (arith, e, away, cl.0), cl.1)
  | inr apart ↦ rw apart (away, cl)
]

-- A block apart from the list and from the block put back is apart from the list with it.
pub Clear-put_back :
    (c k b m : ℕ) (rs : List (ℕ × ℕ))
    → (c + 16 + k ≤ b) ⊎ (b + 16 + m ≤ c)
    → Clear c k rs
    → Clear c k (put_back b m rs)
Clear-put_back c k b m [] away cl = (away, tt)
Clear-put_back c k b m ((a, n) ∷ rs) away cl = elim (Bool-cases (ltb b a)) [
  | inl below ↦ rw below (Clear-join_above c k b m ((a, n) ∷ rs) away cl)
  | inr not_below ↦ elim (Bool-cases (a + 16 + n == b)) [
    | inl adjoins ↦
        let e : a + 16 + n ≡ b = eq_of_== (a + 16 + n) b adjoins in
        rw (not_below, adjoins)
          (Clear-join_above c k a (n + 16 + m) rs (omega (arith, e, away, cl.0)) cl.1)
    | inr apart ↦ rw (not_below, apart) (cl.0, Clear-put_back c k b m rs away cl.1)
  ]
]

-- Above the block put back nothing but the next block matters.
pub put_back_first :
    (b m : ℕ) (hs : List (ℕ × ℕ)) → Sorted (b + 16 + m) hs → put_back b m hs ≡ join_above b m hs
put_back_first b m [] s = refl
put_back_first b m ((a, n) ∷ hs) s =
    let below : ltb b a ≡ true = ground (arith, s.0) in rw below refl

pub stale_first :
    (b m : ℕ) (hs : List (ℕ × ℕ))
    → Sorted (b + 16 + m) hs
    → stale b m hs ≡ stale_above (b + 16 + m) hs
stale_first b m [] s = refl
stale_first b m ((a, n) ∷ hs) s = let below : ltb b a ≡ true = ground (arith, s.0) in rw below refl

-- The blocks below stay as they are.
pub put_back_behind :
    (b m p n : ℕ) (ls hs : List (ℕ × ℕ))
    → Below p ls
    → p + 16 + n ≤ b
    → put_back b m (ls ++ ((p, n) ∷ hs)) ≡ ls ++ put_back b m ((p, n) ∷ hs)
put_back_behind b m p n [] hs low le = refl
put_back_behind b m p n ((a, k) ∷ ls) hs low le =
    let above : ltb b a ≡ false = ground (arith, low.0) in
    let apart : (a + 16 + k == b) ≡ false = ground (arith, low.0) in
    rw (above, apart, put_back_behind b m p n ls hs low.1 le) refl

pub stale_behind :
    (b m p n : ℕ) (ls hs : List (ℕ × ℕ))
    → Below p ls
    → p + 16 + n ≤ b
    → Sorted (b + 16 + m) hs
    → stale b m (ls ++ ((p, n) ∷ hs)) ≡ stale_above (b + 16 + m) hs
stale_behind b m p n [] hs low le s =
    let above : ltb b p ≡ false = ground arith in rw above (stale_first b m hs s)
stale_behind b m p n ((a, k) ∷ ls) hs low le s =
    let above : ltb b a ≡ false = ground (arith, low.0) in
    rw above (stale_behind b m p n ls hs low.1 le s)
