-- ===== src/PidMap/Grow.antt =====
-- The insertion into the AVL tree of c/disp.c of a PID above all others, as `getNextPid` hands them
-- out.
use cs415_a.Base.{
  ℕ, ◌+◌, ◌<◌, ◌≤◌, ◌^◌, ◌≡◌, ◌≢◌, ◌∙◌, true, ltb, ◌⊎◌, inl, inr, arith, refl, ok, Returns, ==_ne,
}
use cs415_a.Heap.{Heap, kmalloc}
use cs415_a.PidMap.{
  Tree, leaf, node, node_size, height, max_height, update_height, restore, insert, lookup,
}
use cs415_a.PidMap.Order.{Below, IsOrdered, All-imp}
use native.Mathlib.Decide.{dec_le}
use cs415_a.PidMap.Balance.{
  IsAvl, LeansRight, max_height_lem, restore_balanced, restore_right, Grown, lookup_rotated,
  maps_right,
}

-- A node whose right child has grown, and that is still balanced.
module _ (at x j : ℕ) (l r : Tree) (h p i : ℕ) (bal : IsAvl (node at x j l r h))
    (o : IsOrdered (node at x j l r h)) (lt : x < p) where
  kept_taller :
      (r' : Tree)
      → Grown r p i r'
      → height r' ≤ height l + 1
      → (height (update_height at x j l r') ≡ h)
        ⊎ ((height (update_height at x j l r') ≡ h + 1) × LeansRight (update_height at x j l r'))
  kept_taller r' g le =
      let m = max_height_lem (height l) (height r) in
      let m' = max_height_lem (height l) (height r') in
      let e0 = bal.0 in
      elim g.taller [
        | inl e ↦ inl (omega arith)
        | inr (e, _) ↦ elim (dec_le (height l) (height r)) [
          | yes a ↦ inr (omega arith, inl (omega arith))
          | no a ↦ inl (omega arith)
        ]
      ]

  kept_Grown :
      (r' : Tree)
      → Grown r p i r'
      → height r' ≤ height l + 1
      → Grown (node at x j l r h) p i (update_height at x j l r')
  unfolding lookup
  kept_Grown r' g le =
      let up : height r ≤ height r' = ground (arith, g.taller) in
      record {
        balanced = (refl, omega arith, le, bal.3, g.balanced);
        ordered = (o.0, g.keys (λ y. x < y) lt o.1, o.2, g.ordered);
        maps = λ q. ground (arith, g.maps q);
        keys = λ P a b. (b.0, b.1, g.keys P a b.2);
        taller = kept_taller r' g le;
      }

  module _ (at' p' i' : ℕ) (l' r' : Tree) (h' : ℕ) (g : Grown r p i (node at' p' i' l' r' h'))
      (gt : height l + 1 < h') where
    leans : (height l' < height r') ⊎ (h' ≡ 1)
    leans = elim g.taller [ inl e ↦ absurd (omega arith) | inr (e, a) ↦ a ]

    heights :
        (h' ≡ height l + 2)
        × (height r ≡ height l + 1)
        × (height r' ≡ height l + 1)
        × (height l' ≡ height l)
    heights =
        let a = g.balanced.0 in
        let b = g.balanced.1 in
        let c = g.balanced.2 in
        let m = max_height_lem (height l') (height r') in
        elim g.taller [
          | inl e ↦ absurd (omega arith)
          | inr (e, _) ↦ elim leans [
            | inl u ↦ (omega arith, omega arith, omega arith, omega arith)
            | inr u ↦ absurd (omega arith)
          ]
        ]

    turned_Grown :
        Grown (node at x j l r h) p i (update_height at' p' i' (update_height at x j l l') r')
    unfolding lookup
    turned_Grown =
        let (e0, e1, e2, e3) = heights in
        let above = g.keys (λ y. x < y) lt o.1 in
        let m = max_height_lem (height l) (height r) in
        let inner : max_height (height l) (height l') ≡ height l =
          omega (arith, max_height_lem (height l) (height l')) in
        let outer : max_height (max_height (height l) (height l') + 1) (height r') ≡ height l + 1 =
          omega (arith, max_height_lem (max_height (height l) (height l') + 1) (height r')) in
        record {
          balanced = (
            refl,
            omega arith,
            omega arith,
            (refl, omega arith, omega arith, bal.3, g.balanced.3),
            g.balanced.4,
          );
          ordered = (
            (All-imp (λ y c. omega arith) l o.0, above.1, g.ordered.0),
            g.ordered.1,
            (o.0, above.0, o.2, g.ordered.2),
            g.ordered.3,
          );
          maps = λ q.
              lookup_rotated at x j at' p' i' l l' r' h h' (max_height (height l) (height l') + 1)
                (max_height (max_height (height l) (height l') + 1) (height r') + 1) q above.1
              ∙ maps_right at x j l r (node at' p' i' l' r' h') h h p i q lt (g.maps q);
          keys = λ P a b. let c = g.keys P a b.2 in ((b.0, b.1, c.0), c.1, c.2);
          taller = inl (omega arith);
        }

-- The node after the insertion on its right, rebalanced if it has to be.
restore-Grown :
    (at x j : ℕ) (l r : Tree) (h p i : ℕ) (r' : Tree)
    → IsAvl (node at x j l r h)
    → IsOrdered (node at x j l r h)
    → x < p
    → h < 2 ^ 29
    → Grown r p i r'
    → Returns (Grown (node at x j l r h) p i) (restore (update_height at x j l r'))
restore-Grown at x j l r h p i leaf bal o lt small g = (
  update_height at x j l leaf,
  restore_balanced at x j l leaf _ (omega (arith, max_height_lem (height l) (height r)))
      (omega arith) (omega (arith, g.taller)) (omega arith),
  kept_Grown at x j l r h p i bal o lt leaf g (omega arith),
)
restore-Grown at x j l r h p i (node at' p' i' l' r' h') bal o lt small g =
    let m = max_height_lem (height l) (height r) in
    let m' = max_height_lem (height l') (height r') in
    let e0 = bal.0 in
    let e1 = g.balanced.0 in
    let up : (height r ≤ h') × (h' ≤ height r + 1) = elim g.taller [
      | inl e ↦ (omega arith, omega arith)
      | inr (e, _) ↦ (omega arith, omega arith)
    ] in
    elim (dec_le h' (height l + 1)) [
      | yes le ↦ (
        update_height at x j l (node at' p' i' l' r' h'),
        restore_balanced at x j l (node at' p' i' l' r' h') _ (omega arith) (omega arith)
            (omega arith) le,
        kept_Grown at x j l r h p i bal o lt (node at' p' i' l' r' h') g le,
      )
      | no gt ↦
          let (f0, f1, f2, f3) =
            heights at x j l r h p i bal o lt at' p' i' l' r' h' g (omega arith) in
          (
            update_height at' p' i' (update_height at x j l l') r',
            restore_right at x j l at' p' i' l' r' h' _ (omega arith) f0 (omega arith)
                (omega arith),
            turned_Grown at x j l r h p i bal o lt at' p' i' l' r' h' g (omega arith),
          )
    ]

module _ (heap heap' : Heap) (addr p i : ℕ) (got : kmalloc heap node_size ≡ ok (addr, heap'))
    (valid : addr ≢ 0) where
  grow_leaf : Returns (λ (t', h'). Grown leaf p i t' × (h' ≡ heap')) (insert heap leaf p i)
  unfolding insert lookup
  grow_leaf = (
    (node addr p i leaf leaf 1, heap'),
    rw (got, ==_ne addr 0 valid),
    (
      record {
        balanced = omega arith;
        ordered = (tt, tt, tt, tt);
        maps = λ q. ground arith;
        keys = λ P a b. (tt, a, tt);
        taller = inr (omega arith, omega arith);
      },
      refl,
    ),
  )

  -- The heap that is left is that of the allocation.
  pub insert-Grown_heap :
      (t : Tree)
      → IsAvl t
      → IsOrdered t
      → Below p t
      → height t < 2 ^ 29
      → Returns (λ (t', h'). Grown t p i t' × (h' ≡ heap')) (insert heap t p i)
  unfolding insert
  insert-Grown_heap leaf bal o below small = grow_leaf
  insert-Grown_heap (node at x j l r h) bal o below small =
      let m = max_height_lem (height l) (height r) in
      let e0 = bal.0 in
      let ((r', h'), e, (g, same)) = insert-Grown_heap r bal.4 o.3 below.2 (omega arith) in
      let (t', e', g') = restore-Grown at x j l r h p i r' bal o below.1 small g in
      let right : ltb x p ≡ true = ground arith in ((t', h'), rw (right, e, e'), (g', same))

  -- A balanced tree in search order, of height below 2 ^ 29, with all PIDs below `p`, and memory
  -- for a node: then `insert` of `p` returns a balanced tree in search order that maps `p` to the
  -- new index and every other PID as before.
  pub insert-Grown :
      (t : Tree)
      → IsAvl t
      → IsOrdered t
      → Below p t
      → height t < 2 ^ 29
      → Returns (λ (t', h'). Grown t p i t') (insert heap t p i)
  insert-Grown t bal o below small =
      let (r, run, (g, _)) = insert-Grown_heap t bal o below small in (r, run, g)
