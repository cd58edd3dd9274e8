-- ===== src/PidMap.antt =====
-- c/disp.c, the AVL tree that maps a PID to the index of its PCB. A subtree has one owner, so a
-- node is a constructor; `at` is the address that `kmalloc` gave it, which `kfree` takes back.
pub mod Order
pub mod Remove
pub mod Delete
pub mod Balance
pub mod Grow
pub mod Rotate
use cs415_a.Base.{
  ℕ, zero, suc, ◌+◌, Bool, true, false, ltb, ◌==◌, if◌then◌else◌, Option, none, some, Run, ok,
  aborted, fault, ◌>>=◌,
}
use cs415_a.Base.Word.{sub32, lt_int, minus}
use cs415_a.Heap.{Heap, kmalloc, kfree}

-- `treeNode`
pub data Tree : Type 0 where
  leaf : Tree
  node : (at pid index : ℕ) → Tree → Tree → (height : ℕ) → Tree

-- sizeof(treeNode)
abbrev pub node_size : ℕ
node_size = 20

abbrev pub height : Tree → ℕ
height leaf = 0
height (node at pid index l r h) = h

abbrev pub max_height : ℕ → ℕ → ℕ
max_height a b = if ltb b a then a else b

unfoldable pub balance_factor : Tree → Tree → ℕ
balance_factor l r = sub32 (height l) (height r)

-- A node with its height updated from its children's.
abbrev pub update_height : (at pid index : ℕ) → Tree → Tree → Tree
update_height at pid index l r = node at pid index l r (max_height (height l) (height r) + 1)

unfoldable pub rotate_left : Tree → Run Tree
rotate_left leaf = fault
rotate_left (node at pid index l leaf h) = fault
rotate_left (node at pid index l (node at' pid' index' l' r' h') h) =
    ok (update_height at' pid' index' (update_height at pid index l l') r')

-- The node becomes nobody's child: `ret->right` is left as it was.
unfoldable pub rotate_right : Tree → Run Tree
rotate_right leaf = fault
rotate_right (node at pid index leaf r h) = fault
rotate_right (node at pid index (node at' pid' index' l' r' h') r h) =
    ok (update_height at' pid' index' l' r')

-- the balance factor of a child, through its pointer
unfoldable pub child_factor : Tree → Run ℕ
unfolding balance_factor
child_factor leaf = fault
child_factor (node at pid index l r h) = ok (balance_factor l r)

-- `if (balanceFactor(node->left) < 0) node->left = rotateLeft(node->left);`
unfoldable pub lean_left : Tree → Run Tree
unfolding rotate_left child_factor
lean_left l =
    child_factor l >>= λ b. let turned = rotate_left l in if lt_int b 0 then turned else ok l

unfoldable pub lean_right : Tree → Run Tree
unfolding rotate_right child_factor
lean_right r =
    child_factor r >>= λ b. let turned = rotate_right r in if lt_int 0 b then turned else ok r

-- The end of `insert`, from "Retore Balance" on.
unfoldable pub restore : Tree → Run Tree
unfolding balance_factor lean_left lean_right rotate_left rotate_right
restore leaf = fault
restore (node at pid index l r h) =
    let left_heavy = lean_left l >>= λ l'. rotate_right (node at pid index l' r h) in
    let right_heavy = lean_right r >>= λ r'. rotate_left (node at pid index l r' h) in
    let b = balance_factor l r in
    if lt_int 1 b
    then left_heavy
    else if lt_int b (minus 1)
    then right_heavy
    else ok (node at pid index l r h)

unfoldable pub insert : Heap → Tree → (pid index : ℕ) → Run (Tree × Heap)
unfolding restore
insert heap leaf p i = kmalloc heap node_size >>= λ (at, heap').
    if at == 0 then aborted else ok (node at p i leaf leaf 1, heap')
insert heap (node at pid index l r h) p i =
    let below_right = (do
      (r', heap') ← insert heap r p i
      t ← restore (update_height at pid index l r')
      ok (t, heap')) in
    let below_left = (do
      (l', heap') ← insert heap l p i
      t ← restore (update_height at pid index l' r)
      ok (t, heap')) in
    if ltb pid p
    then below_right
    else if ltb p pid
    then below_left
    else ok (node at pid i l r h, heap)

-- `lookup`: `none` for the result 0, and what is stored through `pcbIndex` for the result OK
unfoldable pub lookup : Tree → ℕ → Option ℕ
lookup leaf p = none
lookup (node at pid index l r h) p =
    let right = lookup r p in
    let left = lookup l p in if pid == p then some index else if ltb pid p then right else left

-- `predecessor`, from a left child on: the PID and the index of the node that it ends at
unfoldable pub last_entry : (pid index : ℕ) → Tree → ℕ × ℕ
last_entry pid index leaf = (pid, index)
last_entry pid index (node at pid' index' l r h) = last_entry pid' index' r

-- `predecessor`: NULL if there is no left child
unfoldable pub predecessor : Tree → Option (ℕ × ℕ)
unfolding last_entry
predecessor leaf = none
predecessor (node at pid index l r h) = some (last_entry pid index r)

abbrev pub is_leaf : Tree → Bool
is_leaf leaf = true
is_leaf (node at pid index l r h) = false

-- `kfree(node); return child;`
unfoldable pub free_node : Heap → (at : ℕ) → Tree → Run (Tree × Heap)
free_node heap at child = kfree heap at >>= λ heap'. ok (child, heap')

-- The heights are left as they were. A predecessor is read from the left child `l`.
unfoldable pub delete : Heap → Tree → ℕ → Run (Tree × Heap)
unfolding predecessor free_node
delete heap leaf p = ok (leaf, heap)
delete heap (node at pid index l r h) p =
    let below_right = delete heap r p >>= λ (r', heap'). ok (node at pid index l r' h, heap') in
    let below_left = delete heap l p >>= λ (l', heap'). ok (node at pid index l' r h, heap') in
    let here : Run (Tree × Heap) = elim (predecessor l) [
      | none ↦ free_node heap at r
      | some (p', i') ↦
          let replaced = delete heap l p' >>= λ (l', heap'). ok (node at p' i' l' r h, heap') in
          if is_leaf r then free_node heap at l else replaced
    ] in
    if pid == p then here else if ltb pid p then below_right else below_left
