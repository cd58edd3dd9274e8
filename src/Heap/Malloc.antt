-- ===== src/Heap/Malloc.antt =====
-- The heap of c/mem.c as the list of its free and of its allocated blocks, and `kmalloc` on it.
use cs415_a.Base.{
  ℕ, ◌+◌, ◌<◌, ◌≤◌, ◌^◌, ◌≡◌, ◌≢◌, ◌⊎◌, ◌∙◌, refl, true, false, ◌==◌, ==_ne, if◌then◌else◌, Option,
  none, some, List, [], ◌∷◌, length, arith, ok, Returns,
}
use cs415_a.Base.Word.{add32, lt_int}
use cs415_a.Heap.{Heap, take_node, kmalloc, kmalloc_fuel, align16, list_fuel, find_fit}
use cs415_a.Heap.FreeList.{Linked, Sorted, Clear, first_fit}
use cs415_a.Heap.Take.{sanity-take_node, sanity_ne, ptr-take_node}
use cs415_a.Heap.Alloc.{FitOf, FitOf-first_fit}

-- The allocated blocks: each has its size and its sanity check in the header, and lies apart from
-- the free blocks and from the other allocated ones.
abbrev pub Used : Heap → (free : List (ℕ × ℕ)) → List (ℕ × ℕ) → Type 0
Used h rs [] = Unit
Used h rs ((b, m) ∷ us) =
    ((h.header b).size ≡ m)
    × ((h.header b).sanity_check ≡ add32 b 16)
    × Clear b m rs
    × Clear b m us
    × Used h rs us

-- The allocated blocks do not start at NULL, and end before 2 ^ 31.
abbrev pub Placed : List (ℕ × ℕ) → Type 0
Placed [] = Unit
Placed ((b, m) ∷ us) = (b ≢ 0) × (b + 16 + m < 2 ^ 31) × Placed us

pub record IsHeap (h : Heap) (free used : List (ℕ × ℕ)) : Type 0 where
  pub linked : Linked h 0 h.free_list free
  pub sorted : Sorted 1 free
  pub blocks : Used h free used
  pub placed : Placed used

module _ (h : Heap) (a n amount : ℕ) (rs rest : List (ℕ × ℕ)) where
  abbrev h1 : Heap
  h1 = (take_node h a amount).1

  Used-take_node :
      (us : List (ℕ × ℕ))
      → ((z : ℕ) → (z < a) ⊎ (a + 16 + n ≤ z) → (h1.header z).size ≡ (h.header z).size)
      → ((b m : ℕ) → Clear b m rs → (b + 16 + m ≤ a) ⊎ (a + 16 + n ≤ b))
      → ((b m : ℕ) → Clear b m rs → Clear b m rest)
      → Used h rs us
      → Used h1 rest us
  Used-take_node [] others clear clear_rest u = tt
  Used-take_node ((b, m) ∷ us) others clear clear_rest u =
      let away = clear b m u.2 in
      let outside : (b < a) ⊎ (a + 16 + n ≤ b) = omega (arith, away) in
      let ne : a ≢ b = omega (arith, away) in
      (
        others b outside ∙ u.0,
        sanity_ne h a amount b ne ∙ u.1,
        clear_rest b m u.2,
        u.3,
        Used-take_node us others clear clear_rest u.4,
      )

  Clear-Used :
      (us : List (ℕ × ℕ))
      → amount ≤ n
      → ((b m : ℕ) → Clear b m rs → (b + 16 + m ≤ a) ⊎ (a + 16 + n ≤ b))
      → Used h rs us
      → Clear a amount us
  Clear-Used [] fits clear u = tt
  Clear-Used ((b, m) ∷ us) fits clear u =
      (omega (arith, clear b m u.2), Clear-Used us fits clear u.4)

-- The result of `kmalloc` for the blocks that first fit finds, or not.
abbrev pub Allocated :
    Heap → (used : List (ℕ × ℕ)) → (amount : ℕ) → Option (ℕ × List (ℕ × ℕ)) → ℕ × Heap → Type 0
Allocated h us amount none (ptr, h') = (ptr ≡ 0) × (h' ≡ h)
Allocated h us amount (some (a, rest)) (ptr, h') =
    (ptr ≡ add32 a 16) × IsHeap h' rest ((a, amount) ∷ us)

kmalloc_fuel_found :
    (fuel : ℕ) (h : Heap) (size a : ℕ)
    → lt_int 0 size ≡ true
    → find_fit fuel h h.free_list (align16 size) ≡ ok a
    → kmalloc_fuel fuel h size ≡ ok (if a == 0 then (0, h) else take_node h a (align16 size))
unfolding kmalloc_fuel
kmalloc_fuel_found fuel h size a pos e = rw (pos, e) (ground arith)

kmalloc_found :
    (h : Heap) (size a : ℕ)
    → lt_int 0 size ≡ true
    → find_fit list_fuel h h.free_list (align16 size) ≡ ok a
    → kmalloc h size ≡ ok (if a == 0 then (0, h) else take_node h a (align16 size))
unfolding kmalloc
kmalloc_found h size a pos e = kmalloc_fuel_found list_fuel h size a pos e

Allocated-FitOf :
    (h : Heap) (size : ℕ) (rs us : List (ℕ × ℕ)) (o : Option (ℕ × List (ℕ × ℕ)))
    → lt_int 0 size ≡ true
    → IsHeap h rs us
    → FitOf list_fuel h 0 1 h.free_list (align16 size) rs o
    → Returns (Allocated h us (align16 size) o) (kmalloc h size)
Allocated-FitOf h size rs us none pos v f = ((0, h), kmalloc_found h size 0 pos f, (refl, refl))
Allocated-FitOf h size rs us (some (a, rest)) pos v f =
    let ne : (a == 0) ≡ false = ==_ne a 0 f.ne_null in
    let h' = (take_node h a (align16 size)).1 in
    (
      take_node h a (align16 size),
      kmalloc_found h size a pos f.found ∙ rw ne refl,
      (
        ptr-take_node h a (align16 size),
        record {
          linked = f.took.linked;
          sorted = f.sorted;
          blocks = (
            f.claimed.size,
            sanity-take_node h a (align16 size),
            f.apart,
            Clear-Used h a f.n (align16 size) rs rest us f.claimed.fits f.clear v.blocks,
            Used-take_node h a f.n (align16 size) rs rest us f.claimed.others f.clear f.clear_rest
                v.blocks,
          );
          placed = (f.ne_null, omega (arith, f.bound, f.claimed.fits), v.placed);
        },
      ),
    )

-- The heap consists of free and allocated blocks that lie apart; the free ones are fewer than 262145,
-- in the order of their addresses, and doubly linked. Then `kmalloc` of a size from 1 to 2 ^ 31 - 1
-- returns. If no free block is large enough for the size, rounded up to a multiple of 16, it returns
-- NULL and changes nothing. Otherwise it returns the address behind the header of the first that is,
-- and the heap consists of the blocks that are left and the allocated ones with the new one, which
-- lie apart again.
pub kmalloc-first_fit :
    (h : Heap) (size : ℕ) (rs us : List (ℕ × ℕ))
    → IsHeap h rs us
    → length rs < list_fuel
    → 0 < size
    → size < 2 ^ 31
    → Returns (Allocated h us (align16 size) (first_fit (align16 size) rs)) (kmalloc h size)
kmalloc-first_fit h size rs us v few pos small =
    Allocated-FitOf h size rs us (first_fit (align16 size) rs) (ground arith) v (
      FitOf-first_fit list_fuel h 0 1 h.free_list (align16 size) rs v.linked refl v.sorted
        (omega arith) few)
