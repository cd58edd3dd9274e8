-- ===== src/PidMap/Remove.antt =====
-- What `delete` of c/disp.c computes, without the memory of the nodes: the tree it returns, and the
-- node that it frees.
use cs415_a.Base.{
  ℕ, ◌≡◌, Option, none, some, ltb, ◌==◌, if◌then◌else◌, refl, Run, ok, ◌>>=◌, Bool-cases, inl, inr,
  aborted, fault, out_of_fuel, Option-cases,
}
use cs415_a.Heap.{Heap, kfree}
use cs415_a.PidMap.{Tree, leaf, node, delete, predecessor, is_leaf, free_node}

-- The tree that `delete` leaves.
unfoldable pub remove : Tree → ℕ → Tree
unfolding predecessor
remove leaf q = leaf
remove (node at p i l r h) q =
    let here : Tree = elim (predecessor l) [
      | none ↦ r
      | some (p', i') ↦
          let replaced = node at p' i' (remove l p') r h in if is_leaf r then l else replaced
    ] in
    let right = node at p i l (remove r q) h in
    let left = node at p i (remove l q) r h in
    if p == q then here else if ltb p q then right else left

-- The address of the node that it frees.
unfoldable pub victim : Tree → ℕ → Option ℕ
unfolding predecessor
victim leaf q = none
victim (node at p i l r h) q =
    let here : Option ℕ = elim (predecessor l) [
      | none ↦ some at
      | some (p', i') ↦ let deeper = victim l p' in if is_leaf r then some at else deeper
    ] in
    let right = victim r q in
    let left = victim l q in if p == q then here else if ltb p q then right else left

abbrev pub free_result : Run Heap → Tree → Run (Tree × Heap)
free_result r t = r >>= λ heap. ok (t, heap)

abbrev put_back : (Tree → Tree) → Tree × Heap → Run (Tree × Heap)
put_back f (t, heap) = ok (f t, heap)

abbrev pub freed : Heap → Tree → Option ℕ → Run (Tree × Heap)
freed heap t none = ok (t, heap)
freed heap t (some at) = free_result (kfree heap at) t

-- What is below a node that stays is put back.
below_run :
    (r : Run Heap) (t : Tree) (f : Tree → Tree)
    → (free_result r t >>= put_back f) ≡ free_result r (f t)
below_run (ok heap) t f = refl
below_run aborted t f = refl
below_run fault t f = refl
below_run out_of_fuel t f = refl

freed_below :
    (heap : Heap) (t : Tree) (o : Option ℕ) (f : Tree → Tree)
    → (freed heap t o >>= put_back f) ≡ freed heap (f t) o
freed_below heap t none f = refl
freed_below heap t (some at) f = below_run (kfree heap at) t f

pub delete_lem :
    (heap : Heap) (t : Tree) (q : ℕ) → delete heap t q ≡ freed heap (remove t q) (victim t q)
unfolding delete remove victim free_node
delete_lem heap leaf q = refl
delete_lem heap (node at p i l r h) q = elim (Bool-cases (p == q)) [
  | inl here ↦ rw here (elim (Option-cases (predecessor l)) [
    | inl no_left ↦ rw no_left
    | inr (entry, e) ↦ rw e (elim (Bool-cases (is_leaf r)) [
      | inl no_right ↦ rw no_right
      | inr both ↦
          rw (both, delete_lem heap l entry.0)
            (freed_below heap (remove l entry.0) (victim l entry.0)
              λ t. node at entry.0 entry.1 t r h)
    ])
  ])
  | inr other ↦ rw other (elim (Bool-cases (ltb p q)) [
    | inl more ↦
        rw (more, delete_lem heap r q)
          (freed_below heap (remove r q) (victim r q) λ t. node at p i l t h)
    | inr less ↦
        rw (less, delete_lem heap l q)
          (freed_below heap (remove l q) (victim l q) λ t. node at p i t r h)
  ])
]
