-- ===== src/PidMap/Delete.antt =====
-- `delete` of c/disp.c: the node that is freed, and the tree that is left.
use cs415_a.Base.{
  ℕ, ◌<◌, ◌≡◌, Option, none, some, arith, ltb, ◌==◌, if◌then◌else◌, ok, ◌≤◌, Bool-cases, inl, inr,
  Option-cases, ==_refl, Returns, ◌∙◌,
}
use cs415_a.Heap.{Heap, kfree}
use cs415_a.PidMap.{Tree, leaf, node, lookup, delete, predecessor, last_entry, is_leaf}
use cs415_a.PidMap.Order.{All, Below, Above, IsOrdered, All-imp, lookup-absent}
use cs415_a.PidMap.Remove.{remove, victim, delete_lem}

-- The entry that the walk to the right ends at has the greatest PID.
All-last : (P : ℕ → Type 0) (p i : ℕ) (r : Tree) → P p → All P r → P (last_entry p i r).0
unfolding last_entry
All-last P p i leaf a b = a
All-last P p i (node at p' i' l r h) a b = All-last P p' i' r b.1 b.2

last_greatest :
    (at p i : ℕ) (l r : Tree) (h : ℕ)
    → IsOrdered (node at p i l r h)
    → All (λ x. x ≤ (last_entry p i r).0) (node at p i l r h)
unfolding last_entry
last_greatest at p i l leaf h o = (All-imp (λ x a. omega arith) l o.0, omega arith, tt)
last_greatest at p i l (node at' p' i' l' r' h') h o =
    let rest = last_greatest at' p' i' l' r' h' o.3 in
    let up : p < (last_entry p' i' r').0 = All-last (λ x. p < x) p' i' r' o.1.1 o.1.2 in
    (All-imp (λ x a. omega arith) l o.0, omega arith, rest)

lookup_last :
    (at p i : ℕ) (l r : Tree) (h : ℕ)
    → IsOrdered (node at p i l r h)
    → lookup (node at p i l r h) (last_entry p i r).0 ≡ some (last_entry p i r).1
unfolding lookup last_entry
lookup_last at p i l leaf h o = ground arith
lookup_last at p i l (node at' p' i' l' r' h') h o =
    let up : p < (last_entry p' i' r').0 = All-last (λ x. p < x) p' i' r' o.1.1 o.1.2 in
    ground (arith, lookup_last at' p' i' l' r' h' o.3)

lookup_beyond : (t : Tree) (b x : ℕ) → All (λ y. y ≤ b) t → b < x → lookup t x ≡ none
lookup_beyond t b x a h = lookup-absent t x (All-imp (λ y c. omega arith) t a)

lookup_before : (t : Tree) (b x : ℕ) → Above b t → x ≤ b → lookup t x ≡ none
lookup_before t b x a h = lookup-absent t x (All-imp (λ y c. omega arith) t a)

lookup_under : (t : Tree) (b x : ℕ) → Below b t → b ≤ x → lookup t x ≡ none
lookup_under t b x a h = lookup-absent t x (All-imp (λ y c. omega arith) t a)

-- The law at a node, from the law at its children.
lookup-remove_node :
    (at p i : ℕ) (l r : Tree) (h q x : ℕ)
    → IsOrdered (node at p i l r h)
    → ((y : ℕ) → lookup (remove l y) x ≡ (if y == x then none else lookup l x))
    → lookup (remove r q) x ≡ (if q == x then none else lookup r x)
    → lookup (remove (node at p i l r h) q) x
      ≡ (if q == x then none else lookup (node at p i l r h) x)
unfolding lookup remove
lookup-remove_node at p i leaf r h q x o left right = ground (arith, lookup_before r p x o.1)
lookup-remove_node at p i (node al pl il ll lr hl) leaf h q x o left right =
    ground (arith, left q, lookup_under (node al pl il ll lr hl) p x o.0)
lookup-remove_node at p i (node al pl il ll lr hl) (node ar pr ir rl rr hr) h q x o left right =
    let l = node al pl il ll lr hl in
    let r = node ar pr ir rl rr hr in
    let p' = (last_entry pl il lr).0 in
    let less : p' < p = All-last (λ y. y < p) pl il lr o.0.1 o.0.2 in
    ground (
      arith,
      left q,
      left p',
      lookup_last al pl il ll lr hl o.2,
      lookup_beyond l p' x (last_greatest al pl il ll lr hl o.2),
      lookup_before r p x o.1,
      lookup_under l p x o.0,
    )

pub lookup-remove :
    (t : Tree) (q x : ℕ)
    → IsOrdered t
    → lookup (remove t q) x ≡ (if q == x then none else lookup t x)
unfolding lookup remove
lookup-remove leaf q x o = ground arith
lookup-remove (node at p i l r h) q x o =
    lookup-remove_node at p i l r h q x o (λ y. lookup-remove l y x o.2) (lookup-remove r q x o.3)

All-remove : (P : ℕ → Type 0) (t : Tree) (q : ℕ) → All P t → All P (remove t q)
unfolding remove
All-remove P leaf q a = tt
All-remove P (node at p i l r h) q (a, b, c) = elim (Bool-cases (p == q)) [
  | inl here ↦ rw here (at_root l r a c (λ y. All-remove P l y a))
  | inr other ↦ rw other (elim (Bool-cases (ltb p q)) [
    | inl more ↦ rw more (a, b, All-remove P r q c)
    | inr less ↦ rw less (All-remove P l q a, b, c)
  ])
]
  where
    at_root :
        (l' r' : Tree)
        → All P l'
        → All P r'
        → ((y : ℕ) → All P (remove l' y))
        → All P (elim (predecessor l') [
          | none ↦ r'
          | some (p', i') ↦ if is_leaf r' then l' else node at p' i' (remove l' p') r' h
        ])
    at_root leaf r' a' c' rest = c'
    at_root (node al pl il ll lr hl) leaf a' c' rest = a'
    at_root (node al pl il ll lr hl) (node ar pr ir rl rr hr) a' c' rest =
        (rest (last_entry pl il lr).0, All-last P pl il lr a'.1 a'.2, c')

-- A tree that does not hold its upper bound is below it.
Below-of_absent :
    (t : Tree) (b : ℕ) → IsOrdered t → All (λ x. x ≤ b) t → lookup t b ≡ none → Below b t
unfolding lookup
Below-of_absent leaf b o a e = tt
Below-of_absent (node at p i l r h) b o a e =
    let lt : p < b = ground arith in
    let e' : lookup r b ≡ none = ground arith in
    (All-imp (λ x c. omega arith) l o.0, lt, Below-of_absent r b o.3 a.2 e')

-- The tree that is left is ordered.
remove-IsOrdered : (t : Tree) (q : ℕ) → IsOrdered t → IsOrdered (remove t q)
unfolding remove
remove-IsOrdered leaf q o = tt
remove-IsOrdered (node at p i l r h) q o = elim (Bool-cases (p == q)) [
  | inl here ↦ rw here (at_root l r o (λ y. remove-IsOrdered l y o.2))
  | inr other ↦ rw other (elim (Bool-cases (ltb p q)) [
    | inl more ↦ rw more (o.0, All-remove (λ x. p < x) r q o.1, o.2, remove-IsOrdered r q o.3)
    | inr less ↦ rw less (All-remove (λ x. x < p) l q o.0, o.1, remove-IsOrdered l q o.2, o.3)
  ])
]
  where
    at_root :
        (l' r' : Tree)
        → IsOrdered (node at p i l' r' h)
        → ((y : ℕ) → IsOrdered (remove l' y))
        → IsOrdered (elim (predecessor l') [
          | none ↦ r'
          | some (p', i') ↦ if is_leaf r' then l' else node at p' i' (remove l' p') r' h
        ])
    at_root leaf r' o' rest = o'.3
    at_root (node al pl il ll lr hl) leaf o' rest = o'.2
    at_root (node al pl il ll lr hl) (node ar pr ir rl rr hr) o' rest =
        let l' = node al pl il ll lr hl in
        let p' = (last_entry pl il lr).0 in
        let less : p' < p = All-last (λ y. y < p) pl il lr o'.0.1 o'.0.2 in
        (
          Below-of_absent (remove l' p') p' (rest p')
              (All-remove (λ x. x ≤ p') l' p' (last_greatest al pl il ll lr hl o'.2))
              (lookup-remove l' p' p' o'.2 ∙ rw (==_refl p')),
          All-imp (λ x a. omega arith) (node ar pr ir rl rr hr) o'.1,
          rest p',
          o'.3,
        )

-- `kfree` returns for the node that `delete` frees, if it frees one.
abbrev pub FreesNode : Heap → Option ℕ → Type 0
FreesNode heap none = Unit
FreesNode heap (some at) = (heap' : Heap) × (kfree heap at ≡ ok heap')

-- If the tree is in search order, and `kfree` returns for the node to be freed, then `delete`
-- returns a tree in search order that maps every PID as before, but no longer the deleted one.
pub lookup-delete :
    (heap : Heap) (t : Tree) (q : ℕ)
    → IsOrdered t
    → FreesNode heap (victim t q)
    → Returns
        (λ (t', heap').
          IsOrdered t' × ((x : ℕ) → lookup t' x ≡ (if q == x then none else lookup t x)))
        (delete heap t q)
lookup-delete heap t q o f = elim (Option-cases (victim t q)) [
  | inl e ↦ (
    (remove t q, heap),
    delete_lem heap t q ∙ rw e,
    (remove-IsOrdered t q o, λ x. lookup-remove t q x o),
  )
  | inr (at, e) ↦
      let (heap', g) = rw e at f in
      (
        (remove t q, heap'),
        delete_lem heap t q ∙ rw (e, g),
        (remove-IsOrdered t q o, λ x. lookup-remove t q x o),
      )
]
