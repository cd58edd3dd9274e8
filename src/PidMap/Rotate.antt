-- ===== src/PidMap/Rotate.antt =====
-- `rotateRight` of c/disp.c.
use cs415_a.Base.{ℕ, ◌≤◌, ◌≡◌, none, ltb, if◌then◌else◌, Returns, refl, arith}
use cs415_a.PidMap.{Tree, node, lookup, rotate_right, update_height}
use cs415_a.PidMap.Order.{IsOrdered, All-imp, lookup-absent}

module _ (at p i al pl il : ℕ) (ll lr r : Tree) (hl h : ℕ)
    (o : IsOrdered (node at p i (node al pl il ll lr hl) r h)) where
  none_above : (q : ℕ) → p ≤ q → lookup lr q ≡ none
  none_above q a = lookup-absent lr q (All-imp (λ x c. omega arith) lr o.0.2)

  -- The right rotation of a tree in search order returns a tree that maps the PIDs below the old
  -- root as before, and has lost every other entry: the root itself and all its right subtree.
  pub rotate_right-loses :
      Returns
        (λ t.
          (q : ℕ)
          → lookup t q
            ≡ (if ltb q p then lookup (node at p i (node al pl il ll lr hl) r h) q else none))
        (rotate_right (node at p i (node al pl il ll lr hl) r h))
  unfolding rotate_right lookup
  rotate_right-loses =
      (update_height al pl il ll lr, refl, λ q. ground (arith, none_above q, o.0.1))
