-- ===== src/Heap/Outcome.antt =====
-- What `kfree` of c/mem.c leaves of the heap, for each place of the block.
use mathlib.Core.Path.{subst}
use cs415_a.Base.{
  ℕ, ◌+◌, ◌<◌, ◌≤◌, ◌≡◌, ◌≢◌, ◌⊎◌, ◌∙◌, refl, sym, false, List, [], ◌∷◌, ◌++◌, length, arith, inl,
  inr, ok,
}
use cs415_a.Heap.{Heap, kfree, list_fuel, find_place}
use cs415_a.Heap.FreeList.{Linked, Sorted, Clear, SameLinks}
use cs415_a.Heap.Segment.{Below, Segment, Linked-split, Linked-append, Segment-frame, Sorted-split}
use cs415_a.Heap.Alloc.{Sorted-lower}
use cs415_a.Heap.Place.{Place, find_place_lem}
use cs415_a.Heap.Insert.{Behind, freed, First-insert_free, Behind-insert_free, insert_free_behind}
use cs415_a.Heap.Release.{
  put_back, stale, Clear-put_back, put_back_first, stale_first, put_back_behind, stale_behind,
}
use cs415_a.Heap.Free.{joined, kfree_found, Freed-First, Freed-Behind}
use cs415_a.Heap.Allotted.{Allotted, Clear-remove, Stays}

-- The heap `kfree` returns, on the free blocks.
pub record Outcome (h : Heap) (b m : ℕ) (rs : List (ℕ × ℕ)) : Type 0 where
  pub heap : Heap
  pub returned : kfree h (b + 16) ≡ ok heap
  pub linked : Linked heap 0 heap.free_list (put_back b m rs)
  pub stays :
      (c k : ℕ)
      → Clear c k rs
      → (c + 16 + k ≤ b) ⊎ (b + 16 + m ≤ c)
      → Stays h heap (put_back b m rs) c k

Outcome-first :
    (h : Heap) (b m : ℕ) (rs : List (ℕ × ℕ))
    → Linked h 0 h.free_list rs
    → Allotted h b m rs
    → Sorted (b + 16 + m) rs
    → stale b m rs ≡ false
    → Outcome h b m rs
Outcome-first h b m rs l a s fresh =
    let f = First-insert_free list_fuel h b m rs l a.ne_null a.size s in
    let (at, t) = Freed-First list_fuel h b m rs f a.bound s (sym (stale_first b m rs s) ∙ fresh) in
    record {
      heap = joined f.heap b;
      returned = kfree_found h f.heap b (omega (arith, a.bound)) a.sane f.inserted;
      linked = rw (at, put_back_first b m rs s) t.linked;
      stays = λ c k cl away.
          let ne : c ≢ b = omega (arith, away) in
          let (size, sane) = t.others c ne ne in (size, sane, Clear-put_back c k b m rs away cl);
    }

-- The links of the list do not go through a block apart from it.
Linked-apart :
    (h h' : Heap) (prev node b m : ℕ) (rs : List (ℕ × ℕ))
    → Linked h prev node rs
    → Clear b m rs
    → ((z : ℕ) → z ≢ b → SameLinks (h'.header z) (h.header z))
    → Linked h' prev node rs
Linked-apart h h' prev node b m [] l cl same = l
Linked-apart h h' prev node b m ((a, n) ∷ rs) l cl same =
    let e = same a (omega (arith, cl.0)) in
    (
      l.0,
      l.1,
      e.size ∙ l.2,
      e.prev ∙ l.3,
      rw e.next (Linked-apart h h' a (h.header a).next b m rs l.4 cl.1 same),
    )

SameLinks-freed : (h : Heap) (b z : ℕ) → z ≢ b → SameLinks ((freed h b).header z) (h.header z)
SameLinks-freed h b z ne = record { size = ground arith; prev = ground arith; next = ground arith }

node_le :
    (h : Heap) (prev node p n : ℕ) (ls hs : List (ℕ × ℕ))
    → Linked h prev node (ls ++ ((p, n) ∷ hs))
    → Below p ls
    → (node ≢ 0) × (node ≤ p)
node_le h prev node p n [] hs l low = (omega (arith, l.0, l.1), omega (arith, l.0))
node_le h prev node p n ((a, k) ∷ ls) hs l low =
    (omega (arith, l.0, l.1), omega (arith, l.0, low.0))

length_lower : (p n : ℕ) (ls hs : List (ℕ × ℕ)) → length ls < length (ls ++ ((p, n) ∷ hs))
length_lower p n [] hs = omega arith
length_lower p n (x ∷ ls) hs = omega (arith, length_lower p n ls hs)

module _ (h : Heap) (b m p n : ℕ) (ls hs : List (ℕ × ℕ))
    (l : Linked h 0 h.free_list (ls ++ ((p, n) ∷ hs))) (sorted : Sorted 1 (ls ++ ((p, n) ∷ hs)))
    (few : length (ls ++ ((p, n) ∷ hs)) < list_fuel) (a : Allotted h b m (ls ++ ((p, n) ∷ hs)))
    (le : p + 16 + n ≤ b) (s : Sorted (b + 16 + m) hs) where
  Below-ls : Below p ls
  Below-ls = (Sorted-split 1 ls p n hs sorted).0

  Sorted-hs : Sorted b hs
  Sorted-hs = Sorted-lower b (b + 16 + m) hs (omega arith) s

  find_place-freed : find_place list_fuel (freed h b) h.free_list b ≡ ok p
  find_place-freed =
      find_place_lem list_fuel (freed h b) 0 h.free_list b p n ls hs
        (Linked-apart h (freed h b) 0 h.free_list b m (ls ++ ((p, n) ∷ hs)) l a.apart
          (λ z ne. SameLinks-freed h b z ne))
        Below-ls (omega arith) Sorted-hs (omega (arith, length_lower p n ls hs, few))

  -- The block is put behind the block `p`.
  pub Behind-split :
      (prev node : ℕ) → Linked h prev node ((p, n) ∷ hs) → Behind list_fuel h prev p n b m hs
  Behind-split prev node t =
      let (ne_list, le_list) = node_le h 0 h.free_list p n ls hs l Below-ls in
      Behind-insert_free h prev p n b m hs (refl, t.1, t.2, t.3, t.4) a.ne_null a.size le s
        list_fuel (insert_free_behind list_fuel h b p ne_list (omega arith) find_place-freed)

  Outcome-behind : stale b m (ls ++ ((p, n) ∷ hs)) ≡ false → Outcome h b m (ls ++ ((p, n) ∷ hs))
  Outcome-behind fresh =
      let (prev, node, seg, t) = Linked-split h 0 h.free_list ls ((p, n) ∷ hs) l in
      let f = Behind-split prev node t in
      let (list, below, g) =
        Freed-Behind list_fuel h prev p n b m hs f le a.bound s
          (sym (stale_behind b m p n ls hs Below-ls le s) ∙ fresh) in
      let seg' : Segment h 0 h.free_list ls prev p =
        subst (λ q. Segment h 0 h.free_list ls prev q) t.0 seg in
      record {
        heap = joined f.heap b;
        returned = kfree_found h f.heap b (omega (arith, a.bound)) a.sane f.inserted;
        linked =
            rw (list, put_back_behind b m p n ls hs Below-ls le)
              (Linked-append (joined f.heap b) 0 h.free_list prev p ls (put_back b m ((p, n) ∷ hs))
                (Segment-frame h (joined f.heap b) 0 h.free_list prev p p ls seg' Below-ls below)
                g.linked);
        stays = λ c k cl away.
            let behind_p = (Clear-remove c k p n ls hs cl).0 in
            let ne : c ≢ b = omega (arith, away) in
            let ne_p : c ≢ p = omega (arith, behind_p) in
            let (size, sane) = g.others c ne_p ne in
            (size, sane, Clear-put_back c k b m (ls ++ ((p, n) ∷ hs)) away cl);
      }

pub Outcome-Place :
    (h : Heap) (b m : ℕ) (rs : List (ℕ × ℕ))
    → Linked h 0 h.free_list rs
    → Sorted 1 rs
    → length rs < list_fuel
    → Allotted h b m rs
    → stale b m rs ≡ false
    → Place b m rs
    → Outcome h b m rs
Outcome-Place h b m rs l sorted few a fresh (inl s) = Outcome-first h b m rs l a s fresh
Outcome-Place h b m rs l sorted few a fresh (inr (ls, p, n, hs, e, le, s)) =
    subst
      (λ xs.
        Linked h 0 h.free_list xs
        → Sorted 1 xs
        → length xs < list_fuel
        → Allotted h b m xs
        → stale b m xs ≡ false
        → Outcome h b m xs)
      (sym e)
      (λ l' sorted' few' a' fresh'. Outcome-behind h b m p n ls hs l' sorted' few' a' le s fresh') l
      sorted few a fresh
