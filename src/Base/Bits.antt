-- ===== src/Base/Bits.antt =====
-- Laws of `&` on native numbers: the lowest bit, masks of low ones and masks of high ones.
use Prim.Native.Nat.{
  ℕ, zero, suc, ◌+◌, ◌-◌, ◌*◌, ◌/◌, ◌%◌, ◌^◌, ◌≤◌, ◌<◌, min, bit_and, digits, bit_and-bitwise,
}
use mathlib.Core.Path.{◌≡◌, refl, ap}
use mathlib.Core.Logic.{◌≢◌}
use native.Mathlib.Nat.{two-pow-succ}
use native.Mathlib.Omega.{arith}

-- How many digits are still to go does not matter, if they are enough.
and_digits-enough :
    (a b : ℕ) (n m : ℕ)
    → a ≤ n
    → a ≤ m
    → digits (λ _. zero) min n a b ≡ digits (λ _. zero) min m a b
and_digits-enough a b zero zero p q = refl
and_digits-enough zero b zero (suc m) p q = refl
and_digits-enough zero b (suc n) zero p q = refl
and_digits-enough zero b (suc n) (suc m) p q = refl
and_digits-enough (suc a) b zero m p q = absurd (omega arith)
and_digits-enough (suc a) b (suc n) zero p q = absurd (omega arith)
and_digits-enough (suc a) b (suc n) (suc m) p q =
    omega (arith, and_digits-enough (suc a / 2) (b / 2) n m (omega arith) (omega arith))

zero-and : (b : ℕ) → bit_and 0 b ≡ 0
zero-and b = bit_and-bitwise 0 b

-- The lowest bit, and the others.
pub and-halves : (a b : ℕ) → bit_and a b ≡ 2 * bit_and (a / 2) (b / 2) + min (a % 2) (b % 2)
and-halves zero b = omega (arith, zero-and b, zero-and (b / 2))
and-halves (suc a) b = omega (
  arith,
  bit_and-bitwise (suc a) b,
  bit_and-bitwise (suc a / 2) (b / 2),
  and_digits-enough (suc a / 2) (b / 2) a (suc a / 2) (omega arith) (omega arith),
)

pub pow-pos : (n : ℕ) → 1 ≤ 2 ^ n
pow-pos zero = omega arith
pow-pos (suc n) = omega (arith, two-pow-succ n, pow-pos n)

-- A mask of `k` ones keeps a number below 2 ^ k.
pub and_ones : (k z : ℕ) → z < 2 ^ k → bit_and z (2 ^ k - 1) ≡ z
and_ones zero z h = let e : z ≡ 0 = omega arith in rw e
and_ones (suc k) z h =
    let e : (2 ^ suc k - 1) / 2 ≡ 2 ^ k - 1 = omega (arith, two-pow-succ k, pow-pos k) in
    let upper : bit_and (z / 2) ((2 ^ suc k - 1) / 2) ≡ z / 2 =
      rw e (and_ones k (z / 2) (omega (arith, two-pow-succ k))) in
    omega (arith, two-pow-succ k, pow-pos k, and-halves z (2 ^ suc k - 1))

pub pow_mono : (m n : ℕ) → m ≤ n → 2 ^ m ≤ 2 ^ n
pow_mono zero n h = omega (arith, pow-pos n)
pow_mono (suc m) zero h = absurd (omega arith)
pow_mono (suc m) (suc n) h =
    omega (arith, two-pow-succ m, two-pow-succ n, pow_mono m n (omega arith))

-- The mask of the digits from `m` up tells whether a number reaches 2 ^ m.
pub and_high :
    (m n x : ℕ)
    → m ≤ n
    → x < 2 ^ n
    → (x < 2 ^ m → bit_and x (2 ^ n - 2 ^ m) ≡ 0) × (2 ^ m ≤ x → bit_and x (2 ^ n - 2 ^ m) ≢ 0)
and_high zero n x h lt =
    let e : bit_and x (2 ^ n - 2 ^ 0) ≡ x = and_ones n x lt in
    (λ a. omega arith, λ a b. omega arith)
and_high (suc m) zero x h lt = absurd (omega arith)
and_high (suc m) (suc n) x h lt =
    let e : (2 ^ suc n - 2 ^ suc m) / 2 ≡ 2 ^ n - 2 ^ m =
      omega (arith, two-pow-succ n, two-pow-succ m) in
    let even : (2 ^ suc n - 2 ^ suc m) % 2 ≡ 0 = omega (arith, two-pow-succ n, two-pow-succ m) in
    let halves : bit_and x (2 ^ suc n - 2 ^ suc m) ≡ 2 * bit_and (x / 2) (2 ^ n - 2 ^ m) =
      omega (arith, and-halves x (2 ^ suc n - 2 ^ suc m), ap (bit_and (x / 2)) e) in
    let (low, high) = and_high m n (x / 2) (omega arith) (omega (arith, two-pow-succ n)) in
    (
      λ a. omega (arith, low (omega (arith, two-pow-succ m))),
      λ a b. high (omega (arith, two-pow-succ m)) (omega arith),
    )

-- The complement of the highest digit clears it.
pub and_clear :
    (s n x : ℕ) → s < n → 2 ^ s ≤ x → x < 2 ^ suc s → bit_and x (2 ^ n - 1 - 2 ^ s) ≡ x - 2 ^ s
and_clear s zero x h lo hi = absurd (omega arith)
and_clear zero (suc n) x h lo hi =
    let one : x ≡ 1 = omega arith in
    let e : (2 ^ suc n - 1 - 2 ^ 0) % 2 ≡ 0 = omega (arith, two-pow-succ n, pow-pos n) in
    rw one
      (omega (arith, and-halves 1 (2 ^ suc n - 1 - 2 ^ 0), zero-and ((2 ^ suc n - 1 - 2 ^ 0) / 2)))
and_clear (suc s) (suc n) x h lo hi =
    let le = pow_mono (suc s) n (omega arith) in
    let e : (2 ^ suc n - 1 - 2 ^ suc s) / 2 ≡ 2 ^ n - 1 - 2 ^ s =
      omega (arith, two-pow-succ n, two-pow-succ s, pow-pos s) in
    let odd : (2 ^ suc n - 1 - 2 ^ suc s) % 2 ≡ 1 =
      omega (arith, two-pow-succ n, two-pow-succ s, pow-pos s) in
    let upper =
      and_clear s n (x / 2) (omega arith) (omega (arith, two-pow-succ s))
        (omega (arith, two-pow-succ s, two-pow-succ (suc s))) in
    omega (
      arith,
      two-pow-succ s,
      upper,
      and-halves x (2 ^ suc n - 1 - 2 ^ suc s),
      ap (bit_and (x / 2)) e,
    )
