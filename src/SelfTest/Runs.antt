-- ===== src/SelfTest/Runs.antt =====
-- Steps of the tests of the memory manager in c/init.c.
use mathlib.Core.Path.{subst}
use cs415_a.Base.{
  ok, ℕ, ◌+◌, ◌<◌, ◌^◌, ◌≡◌, ◌∙◌, refl, sym, ==_refl, some, false, List, ◌∷◌, ◌++◌, length, arith,
  Run, ◌>>=◌, Returns,
}
use cs415_a.Base.Word.{add32, sub32}
use cs415_a.Heap.{Heap, kmalloc, kfree, list_fuel, align16}
use cs415_a.Heap.FreeList.{first_fit}
use cs415_a.Heap.Malloc.{IsHeap, Allocated, kmalloc-first_fit}
use cs415_a.Heap.Release.{put_back, stale}
use cs415_a.Heap.Reclaim.{kfree-put_back}
use cs415_a.SelfTest.{assert_equals, test_kmalloc_helper, test_block}

-- A run that goes on with a result that satisfies `P`.
pub Returns-bind {ℓ κ μ ν} :
    {A : Type ℓ} {B : Type κ} (P : A → Type μ) (Q : B → Type ν) (r : Run A) (f : A → Run B)
    → Returns P r
    → ((a : A) → P a → Returns Q (f a))
    → Returns Q (r >>= f)
Returns-bind P Q r f (a, e, p) next = subst (λ x. Returns Q (x >>= f)) (sym e) (next a p)

pub Returns-run {ℓ κ ν} :
    {A : Type ℓ} {B : Type κ} (Q : B → Type ν) (r : Run A) (a : A) (f : A → Run B)
    → r ≡ ok a
    → Returns Q (f a)
    → Returns Q (r >>= f)
Returns-run Q r a f e t = subst (λ x. Returns Q (x >>= f)) (sym e) t

pub Returns-assert {ℓ ν} :
    {B : Type ℓ} (Q : B → Type ν) (a e : ℕ) (f : Unit → Run B)
    → a ≡ e
    → Returns Q (f tt)
    → Returns Q (assert_equals a e >>= f)
Returns-assert Q a e f same next = rw (same, ==_refl e) next

pub add32_lem : (a m : ℕ) → a + 16 + m < 2 ^ 31 → add32 a 16 ≡ a + 16
add32_lem a m bound = ground arith

pub sub32_lem : (a m : ℕ) → a + 16 + m < 2 ^ 31 → sub32 (a + 16) 16 ≡ a
sub32_lem a m bound = ground arith

-- The outcome of an allocation that is served.
abbrev pub Served : (a amount : ℕ) (rs us : List (ℕ × ℕ)) → ℕ × Heap → Type 0
Served a amount rs us (ptr, h') = (ptr ≡ a + 16) × IsHeap h' rs ((a, amount) ∷ us)

pub Served-kmalloc :
    (h : Heap) (size amount a : ℕ) (rs rest us : List (ℕ × ℕ))
    → IsHeap h rs us
    → length rs < list_fuel
    → 0 < size
    → size < 2 ^ 31
    → align16 size ≡ amount
    → first_fit amount rs ≡ some (a, rest)
    → Returns (Served a amount rest us) (test_kmalloc_helper h size)
unfolding test_kmalloc_helper
Served-kmalloc h size amount a rs rest us v few pos small e fit =
    let found : first_fit (align16 size) rs ≡ some (a, rest) = rw e fit in
    let ((ptr, h'), run, (at, v')) =
      subst (λ o. Returns (Allocated h us (align16 size) o) (kmalloc h size)) found
        (kmalloc-first_fit h size rs us v few pos small) in
    let heap : IsHeap h' rest ((a, amount) ∷ us) = subst (λ n. IsHeap h' rest ((a, n) ∷ us)) e v' in
    ((ptr, h'), run, (at ∙ add32_lem a amount heap.placed.1, heap))

pub Served-test_block :
    (h : Heap) (request expected size a : ℕ) (rs rest us : List (ℕ × ℕ))
    → IsHeap h rs us
    → length rs < list_fuel
    → 0 < request
    → request < 2 ^ 31
    → align16 request ≡ size
    → first_fit size rs ≡ some (a, rest)
    → a + 16 ≡ expected
    → Returns (Served a size rest us) (test_block h request expected size)
unfolding test_block
Served-test_block h request expected size a rs rest us v few pos small e fit at =
    Returns-bind (Served a size rest us) (Served a size rest us) (test_kmalloc_helper h request) _
      (Served-kmalloc h request size a rs rest us v few pos small e fit)
      (λ (ptr, h') (at', v'). Returns-assert (Served a size rest us) ptr expected _ (at' ∙ at) (
        Returns-assert (Served a size rest us) (h'.header (sub32 ptr 16)).size size _
          (rw (at', sub32_lem a size v'.placed.1) v'.blocks.0) ((ptr, h'), refl, (at', v'))))

-- The outcome of a `kfree` that puts a block back.
pub Freed-kfree :
    (h : Heap) (ptr b m : ℕ) (rs rs' before behind us : List (ℕ × ℕ))
    → IsHeap h rs (before ++ ((b, m) ∷ behind))
    → length rs < list_fuel
    → ptr ≡ b + 16
    → stale b m rs ≡ false
    → put_back b m rs ≡ rs'
    → before ++ behind ≡ us
    → Returns (λ h'. IsHeap h' rs' us) (kfree h ptr)
Freed-kfree h ptr b m rs rs' before behind us v few at fresh back rest =
    rw (at, sym back, sym rest) (kfree-put_back h b m rs before behind v few fresh)

pub few_lem : 2 < list_fuel
unfolding list_fuel
few_lem = omega arith

pub few_one : 1 < list_fuel
few_one = omega (arith, few_lem)
