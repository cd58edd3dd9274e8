-- ===== src/Heap/Took.antt =====
-- `take_node` of c/mem.c on the list of the free blocks.

use cs415_a.Base.{ℕ, ◌+◌, ◌-◌, ◌<◌, ◌≤◌, ◌^◌, ◌≡◌, ◌≢◌, ◌∙◌, List, [], ◌∷◌, arith, ◌⊎◌}
use cs415_a.Heap.{Heap, take_node}
use cs415_a.Heap.FreeList.{Linked, Sorted, SameLinks, link, Linked-relink}
use cs415_a.Heap.Take.{
  size_split, prev_split, next_split, list_split, size_whole, prev_whole, next_whole, list_whole,
}
use native.Mathlib.Decide.{dec_lt}

-- What taking a block leaves of the list behind the block `prev`, and below `lo`.
pub record Took (h h' : Heap) (prev lo : ℕ) (rs : List (ℕ × ℕ)) : Type 0 where
  pub linked : Linked h' prev (link h' prev) rs
  pub below : (z : ℕ) → z < lo → z ≢ prev → SameLinks (h'.header z) (h.header z)
  pub size : (h'.header prev).size ≡ (h.header prev).size
  pub back : (h'.header prev).prev ≡ (h.header prev).prev
  pub list : prev ≢ 0 → h'.free_list ≡ h.free_list

pub first_after :
    (h : Heap) (prev node lo : ℕ) (rs : List (ℕ × ℕ))
    → Linked h prev node rs
    → Sorted lo rs
    → node ≢ 0
    → lo ≤ node
first_after h prev node lo [] l s ne = absurd (ne l)
first_after h prev node lo ((a, n) ∷ rs) l s ne = omega (arith, l.0, s.0)

module _ (h : Heap) (prev lo a n amount : ℕ) (rs : List (ℕ × ℕ)) (ne : a ≢ 0)
    (size_a : (h.header a).size ≡ n) (prev_a : (h.header a).prev ≡ prev)
    (tail : Linked h a (h.header a).next rs) (le : lo ≤ a) (bound : a + 16 + n < 2 ^ 31)
    (sorted : Sorted (a + 16 + n) rs) (lt : prev < lo) where
  abbrev h1 : Heap
  h1 = (take_node h a amount).1

  prev_lt : (h.header a).prev < a
  prev_lt = omega arith

  after : ((h.header a).next ≢ 0) → a + 16 + (h.header a).size ≤ (h.header a).next
  after ne' =
      omega (arith, first_after h a (h.header a).next (a + 16 + n) rs tail sorted ne', size_a)

  pub Took-split : amount + 16 < n → Took h h1 prev lo ((a + 16 + amount, n - amount - 16) ∷ rs)
  Took-split big =
      let fits : amount + 16 < (h.header a).size = omega arith in
      let limit : a + 16 + (h.header a).size < 2 ^ 31 = omega arith in
      let new = a + 16 + amount in
      let sizes = size_split h a amount fits limit prev_lt after in
      let prevs = prev_split h a amount fits limit prev_lt after in
      let nexts = next_split h a amount fits limit prev_lt after in
      let lists = list_split h a amount fits limit prev_lt after in
      let follows : (h1.header new).next ≡ (h.header a).next = ground (arith, nexts new) in
      record {
        linked = (
          ground (arith, nexts prev, lists),
          omega arith,
          ground (arith, sizes new),
          ground (arith, prevs new),
          rw follows (
              Linked-relink h h1 a new (h.header a).next (a + 16 + n) rs tail sorted
                (λ z z_le. ground (arith, sizes z)) (λ z z_le. ground (arith, nexts z))
                (λ z z_le. ground (arith, prevs z))),
        );
        below = λ z z_lt z_ne. record {
          size = ground (arith, sizes z);
          prev = ground (arith, prevs z, after);
          next = ground (arith, nexts z);
        };
        size = ground (arith, sizes prev);
        back = ground (arith, prevs prev, after);
        list = λ prev_ne. ground (arith, lists);
      }

  pub Took-whole : amount ≤ n → n ≤ amount + 16 → Took h h1 prev lo rs
  Took-whole enough tight =
      let fits : amount ≤ (h.header a).size = omega arith in
      let close : (h.header a).size ≤ amount + 16 = omega arith in
      let limit : a + 16 + (h.header a).size < 2 ^ 31 = omega arith in
      let sizes = size_whole h a amount fits close limit prev_lt after in
      let prevs = prev_whole h a amount fits close limit prev_lt after in
      let nexts = next_whole h a amount fits close limit prev_lt after in
      let lists = list_whole h a amount fits close limit prev_lt after in
      let follows : link h1 prev ≡ (h.header a).next = ground (arith, nexts prev, lists) in
      record {
        linked = rw follows (
            Linked-relink h h1 a prev (h.header a).next (a + 16 + n) rs tail sorted
              (λ z z_le. ground (arith, sizes z)) (λ z z_le. ground (arith, nexts z))
              (λ z z_le. ground (arith, prevs z)));
        below = λ z z_lt z_ne. record {
          size = ground (arith, sizes z);
          prev = ground (arith, prevs z, after);
          next = ground (arith, nexts z);
        };
        size = ground (arith, sizes prev);
        back = ground (arith, prevs prev, after);
        list = λ prev_ne. ground (arith, lists);
      }

-- What the block of `n` bytes at `a` becomes, and what no other block loses.
pub record Claimed (h h' : Heap) (a n amount : ℕ) : Type 0 where
  pub fits : amount ≤ n
  pub size : (h'.header a).size ≡ amount
  pub others : (z : ℕ) → (z < a) ⊎ (a + 16 + n ≤ z) → (h'.header z).size ≡ (h.header z).size

module _ (h : Heap) (prev lo a n amount : ℕ) (rs : List (ℕ × ℕ)) (size_a : (h.header a).size ≡ n)
    (prev_a : (h.header a).prev ≡ prev) (tail : Linked h a (h.header a).next rs) (le : lo ≤ a)
    (bound : a + 16 + n < 2 ^ 31) (sorted : Sorted (a + 16 + n) rs) (lt : prev < lo) where
  pub Claimed-take_node : amount ≤ n → Claimed h (take_node h a amount).1 a n amount
  Claimed-take_node enough =
      let limit : a + 16 + (h.header a).size < 2 ^ 31 = omega arith in
      let prev_lt : (h.header a).prev < a = omega arith in
      let after : ((h.header a).next ≢ 0) → a + 16 + (h.header a).size ≤ (h.header a).next = λ ne.
        omega (arith, first_after h a (h.header a).next (a + 16 + n) rs tail sorted ne, size_a) in
      elim (dec_lt (amount + 16) n) [
        | yes big ↦
            let sizes = size_split h a amount (omega arith) limit prev_lt after in
            record {
              fits = enough;
              size = ground (arith, sizes a);
              others = λ z away. ground (arith, sizes z);
            }
        | no tight ↦
            let sizes = size_whole h a amount (omega arith) (omega arith) limit prev_lt after in
            record {
              fits = enough;
              size = ground (arith, sizes a);
              others = λ z away. ground (arith, sizes z);
            }
      ]

-- The search goes on behind a block that is too small.
pub Took-behind :
    (h h' : Heap) (prev lo x m : ℕ) (rs : List (ℕ × ℕ))
    → link h prev ≡ x
    → x ≢ 0
    → (h.header x).size ≡ m
    → (h.header x).prev ≡ prev
    → lo ≤ x
    → prev < lo
    → Took h h' x (x + 16 + m) rs
    → Took h h' prev lo ((x, m) ∷ rs)
Took-behind h h' prev lo x m rs here ne size_x prev_x le lt t =
    let follows : link h' x ≡ (h'.header x).next = ground arith in
    let at_prev : prev ≢ x = omega arith in
    let kept = t.below prev (omega arith) at_prev in
    record {
      linked = (
        ground (arith, kept.next, t.list ne),
        ne,
        t.size ∙ size_x,
        t.back ∙ prev_x,
        rw follows at t.linked,
      );
      below = λ z z_lt z_ne. t.below z (omega arith) (omega arith);
      size = kept.size;
      back = kept.prev;
      list = λ prev_ne. t.list ne;
    }
