-- ===== src/Heap/Insert.antt =====
-- The insertion of `kfree` of c/mem.c on the list of the free blocks.
use cs415_a.Base.{
  ℕ, ◌+◌, ◌<◌, ◌≤◌, ◌≡◌, ◌≢◌, ◌∙◌, refl, ◌==◌, ◌!=◌, ◌&&◌, if◌then◌else◌, List, [], ◌∷◌, arith, ok,
}
use cs415_a.Heap.{Heap, set_next, set_prev, set_sanity, find_place, insert_after, insert_free}
use cs415_a.Heap.FreeList.{Linked, Sorted, SameLinks, Linked-relink}
use cs415_a.Heap.Took.{first_after}

-- The heap when `kfree` has reset the block's header.
abbrev pub freed : Heap → ℕ → Heap
freed h b = set_sanity (set_prev (set_next h b 0) b 0) b 0

-- What putting the block `b` back leaves of the heap.
pub record Kept (h h' : Heap) (b : ℕ) : Type 0 where
  pub sizes : (z : ℕ) → (h'.header z).size ≡ (h.header z).size
  pub sanity : (z : ℕ) → z ≢ b → (h'.header z).sanity_check ≡ (h.header z).sanity_check

-- The block is put before the blocks `rs`.
pub record First (fuel : ℕ) (h : Heap) (b m : ℕ) (rs : List (ℕ × ℕ)) : Type 0 where
  pub heap : Heap
  pub inserted : insert_free fuel (freed h b) b ≡ ok heap
  pub list : heap.free_list ≡ b
  pub linked : Linked heap 0 b ((b, m) ∷ rs)
  pub kept : Kept h heap b

pub First-insert_free :
    (fuel : ℕ) (h : Heap) (b m : ℕ) (rs : List (ℕ × ℕ))
    → Linked h 0 h.free_list rs
    → b ≢ 0
    → (h.header b).size ≡ m
    → Sorted (b + 16 + m) rs
    → First fuel h b m rs
unfolding insert_free
First-insert_free fuel h b m [] l ne size s = record {
  heap = record (freed h b) { free_list = b };
  inserted = ground (arith, l);
  list = refl;
  linked = (refl, ne, ground arith, ground arith, ground arith);
  kept = record { sizes = λ z. ground arith; sanity = λ z z_ne. ground arith };
}
First-insert_free fuel h b m ((a, n) ∷ rs) l ne size s =
    let e : h.free_list ≡ a = l.0 in
    let h1 : Heap = record (set_next (set_prev (freed h b) a b) b a) { free_list = b } in
    let lt : b < a = omega (arith, s.0) in
    let own : Linked h 0 a ((a, n) ∷ rs) = (refl, l.1, l.2, l.3, l.4) in
    let next_b : (h1.header b).next ≡ a = ground arith in
    record {
      heap = h1;
      inserted = ground (arith, l.1);
      list = refl;
      linked = (
        refl,
        ne,
        ground arith,
        ground arith,
        rw next_b (
            Linked-relink h h1 0 b a (b + 16 + m) ((a, n) ∷ rs) own s (λ z le. ground arith)
              (λ z le. ground arith) (λ z le. ground arith)),
      );
      kept = record { sizes = λ z. ground arith; sanity = λ z z_ne. ground arith };
    }

-- The block is put behind the block `(p, n)` of the list, and before the blocks `hs`.
pub record Behind (fuel : ℕ) (h : Heap) (prev p n b m : ℕ) (hs : List (ℕ × ℕ)) : Type 0 where
  pub heap : Heap
  pub inserted : insert_free fuel (freed h b) b ≡ ok heap
  pub list : heap.free_list ≡ h.free_list
  pub linked : Linked heap prev p ((p, n) ∷ (b, m) ∷ hs)
  pub below : (z : ℕ) → z < p → SameLinks (heap.header z) (h.header z)
  pub kept : Kept h heap b

pub insert_free_behind :
    (fuel : ℕ) (h : Heap) (b p : ℕ)
    → h.free_list ≢ 0
    → h.free_list ≤ b
    → find_place fuel (freed h b) h.free_list b ≡ ok p
    → insert_free fuel (freed h b) b ≡ ok (insert_after (freed h b) p b)
unfolding insert_free
insert_free_behind fuel h b p ne le e = rw e (ground arith)

module _ (h : Heap) (prev p n b m : ℕ) (hs : List (ℕ × ℕ)) (l : Linked h prev p ((p, n) ∷ hs))
    (ne : b ≢ 0) (size : (h.header b).size ≡ m) (le : p + 16 + n ≤ b)
    (s : Sorted (b + 16 + m) hs) where
  abbrev h1 : Heap
  h1 = insert_after (freed h b) p b

  above : (h.header p).next ≢ 0 → b + 16 + m ≤ (h.header p).next
  above = first_after h p (h.header p).next (b + 16 + m) hs l.4 s

  size_after : (z : ℕ) → (h1.header z).size ≡ (h.header z).size
  unfolding insert_after
  size_after z = ground (arith, above)

  next_after :
      (z : ℕ)
      → (h1.header z).next
        ≡ (if z == p then b else if z == b then (h.header p).next else (h.header z).next)
  unfolding insert_after
  next_after z = ground (arith, above)

  prev_after :
      (z : ℕ)
      → (h1.header z).prev ≡ (
          if z == b
          then p
          else if ((h.header p).next != 0) && (z == (h.header p).next)
          then b
          else (h.header z).prev)
  unfolding insert_after
  prev_after z = ground (arith, above)

  sanity_after : (z : ℕ) → z ≢ b → (h1.header z).sanity_check ≡ (h.header z).sanity_check
  unfolding insert_after
  sanity_after z z_ne = ground (arith, above)

  list_after : h1.free_list ≡ h.free_list
  unfolding insert_after
  list_after = ground (arith, above)

  pub Behind-insert_free :
      (fuel : ℕ) → insert_free fuel (freed h b) b ≡ ok h1 → Behind fuel h prev p n b m hs
  Behind-insert_free fuel e =
      let next_p : (h1.header p).next ≡ b = next_after p ∙ ground arith in
      let next_b : (h1.header b).next ≡ (h.header p).next = next_after b ∙ ground arith in
      record {
        heap = h1;
        inserted = e;
        list = list_after;
        linked = (
          refl,
          l.1,
          size_after p ∙ l.2,
          prev_after p ∙ ground (arith, above, l.3),
          (
            next_p,
            ne,
            size_after b ∙ size,
            prev_after b ∙ ground arith,
            rw next_b (
                Linked-relink h h1 p b (h.header p).next (b + 16 + m) hs l.4 s
                  (λ z z_le. size_after z) (λ z z_le. next_after z ∙ ground arith)
                  (λ z z_le. prev_after z ∙ ground (arith, above))),
          ),
        );
        below = λ z lt. record {
          size = size_after z;
          prev = prev_after z ∙ ground (arith, above);
          next = next_after z ∙ ground arith;
        };
        kept = record { sizes = size_after; sanity = sanity_after };
      }
