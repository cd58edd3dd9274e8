-- ===== src/Heap/Take.antt =====
-- What `kmalloc` of c/mem.c writes once it has found a block.
use cs415_a.Base.{
  ℕ, ◌+◌, ◌-◌, ◌<◌, ◌≤◌, ◌^◌, ◌≡◌, ◌≢◌, refl, ==_refl, true, false, ◌==◌, ◌!=◌, ◌&&◌, if◌then◌else◌,
  arith,
}
use cs415_a.Base.Word.{add32, sub32, lt_int}
use cs415_a.Heap.{Heap, split_node, unlink_node, claim_node, take_node}

-- The block `a` is larger than the amount by more than a header.
module _ (h : Heap) (a amount : ℕ) (fits : amount + 16 < (h.header a).size)
    (bound : a + 16 + (h.header a).size < 2 ^ 31) (prev_lt : (h.header a).prev < a)
    (after_gt : ((h.header a).next ≢ 0) → a + 16 + (h.header a).size ≤ (h.header a).next) where
  split_lem : lt_int 0 (sub32 (sub32 (h.header a).size amount) 16) ≡ true
  split_lem = ground arith

  pub size_split :
      (z : ℕ)
      → ((take_node h a amount).1.header z).size ≡ (
          if a == z
          then amount
          else if a + 16 + amount == z
          then (h.header a).size - amount - 16
          else (h.header z).size)
  unfolding take_node split_node unlink_node claim_node
  size_split z = ground (arith, split_lem)

  pub prev_split :
      (z : ℕ)
      → ((take_node h a amount).1.header z).prev ≡ (
          if a == z
          then 0
          else if a + 16 + amount == z
          then (h.header a).prev
          else if ((h.header a).next != 0) && ((h.header a).next == z)
          then a + 16 + amount
          else (h.header z).prev)
  unfolding take_node split_node unlink_node claim_node
  prev_split z = ground (arith, split_lem)

  pub next_split :
      (z : ℕ)
      → ((take_node h a amount).1.header z).next ≡ (
          if a == z
          then 0
          else if ((h.header a).prev != 0) && ((h.header a).prev == z)
          then a + 16 + amount
          else if a + 16 + amount == z
          then (h.header a).next
          else (h.header z).next)
  unfolding take_node split_node unlink_node claim_node
  next_split z = ground (arith, split_lem)

  pub list_split :
      (take_node h a amount).1.free_list
      ≡ (if (h.header a).prev == 0 then a + 16 + amount else h.free_list)
  unfolding take_node split_node unlink_node claim_node
  list_split = ground (arith, split_lem)

-- The block `a` is large enough, and not larger by more than a header.
module _ (h : Heap) (a amount : ℕ) (enough : amount ≤ (h.header a).size)
    (tight : (h.header a).size ≤ amount + 16) (bound : a + 16 + (h.header a).size < 2 ^ 31)
    (prev_lt : (h.header a).prev < a)
    (after_gt : ((h.header a).next ≢ 0) → a + 16 + (h.header a).size ≤ (h.header a).next) where
  whole_lem : lt_int 0 (sub32 (sub32 (h.header a).size amount) 16) ≡ false
  whole_lem = ground arith

  pub size_whole :
      (z : ℕ)
      → ((take_node h a amount).1.header z).size ≡ (if a == z then amount else (h.header z).size)
  unfolding take_node split_node unlink_node claim_node
  size_whole z = ground (arith, whole_lem)

  pub prev_whole :
      (z : ℕ)
      → ((take_node h a amount).1.header z).prev ≡ (
          if a == z
          then 0
          else if ((h.header a).next != 0) && ((h.header a).next == z)
          then (h.header a).prev
          else (h.header z).prev)
  unfolding take_node split_node unlink_node claim_node
  prev_whole z = ground (arith, whole_lem)

  pub next_whole :
      (z : ℕ)
      → ((take_node h a amount).1.header z).next ≡ (
          if a == z
          then 0
          else if ((h.header a).prev != 0) && ((h.header a).prev == z)
          then (h.header a).next
          else (h.header z).next)
  unfolding take_node split_node unlink_node claim_node
  next_whole z = ground (arith, whole_lem)

  pub list_whole :
      (take_node h a amount).1.free_list
      ≡ (if (h.header a).prev == 0 then (h.header a).next else h.free_list)
  unfolding take_node split_node unlink_node claim_node
  list_whole = ground (arith, whole_lem)

pub sanity-take_node :
    (h : Heap) (a amount : ℕ) → ((take_node h a amount).1.header a).sanity_check ≡ add32 a 16
unfolding take_node split_node unlink_node claim_node
sanity-take_node h a amount = rw (==_refl a) refl

pub sanity_ne :
    (h : Heap) (a amount z : ℕ)
    → a ≢ z
    → ((take_node h a amount).1.header z).sanity_check ≡ (h.header z).sanity_check
unfolding take_node split_node unlink_node claim_node
sanity_ne h a amount z ne = ground arith

pub ptr-take_node : (h : Heap) (a amount : ℕ) → (take_node h a amount).0 ≡ add32 a 16
unfolding take_node
ptr-take_node h a amount = refl
