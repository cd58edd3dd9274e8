-- ===== src/Heap/Free.antt =====
-- `kfree` of c/mem.c from the place of the block on.
use mathlib.Core.Path.{subst}
use cs415_a.Base.{
  ℕ, ◌+◌, ◌<◌, ◌≤◌, ◌^◌, ◌≡◌, ◌≢◌, ◌∙◌, refl, sym, ◌==◌, ltb, List, ◌∷◌, arith, inl, inr, ok,
  Bool-cases, true, false, ==_refl, eq_of_==,
}
use cs415_a.Base.Word.{add32, sub32}
use cs415_a.Heap.{Heap, Header, free_block, kfree, list_fuel, join_low, join_high, insert_free}
use cs415_a.Heap.FreeList.{Linked, Sorted, SameLinks}
use cs415_a.Heap.Join.{join_above, stale_above, Joined, join_high-Linked}
use cs415_a.Heap.JoinLow.{join_low_apart, join_low-Linked}
use cs415_a.Heap.Insert.{freed, Kept, First, Behind}
use cs415_a.Heap.Release.{put_back, put_back_first}

-- The heap that `kfree` makes of the one where the block has been put back.
abbrev pub joined : Heap → ℕ → Heap
joined h b = join_high (join_low h b).1 (join_low h b).0

free_block_found :
    (fuel : ℕ) (h h1 : Heap) (b : ℕ)
    → ((h.header b).sanity_check == add32 b 16) ≡ true
    → insert_free fuel (freed h b) b ≡ ok h1
    → free_block fuel h b ≡ ok (joined h1 b)
unfolding free_block
free_block_found fuel h h1 b sane e = rw sane (rw e refl)

sub32_add : (b : ℕ) → b + 16 < 2 ^ 31 → sub32 (b + 16) 16 ≡ b
sub32_add b bound = ground arith

pub kfree_found :
    (h h1 : Heap) (b : ℕ)
    → b + 16 < 2 ^ 31
    → (h.header b).sanity_check ≡ add32 b 16
    → insert_free list_fuel (freed h b) b ≡ ok h1
    → kfree h (b + 16) ≡ ok (joined h1 b)
unfolding kfree
kfree_found h h1 b bound sane e =
    subst (λ hdr. free_block list_fuel h hdr ≡ ok (joined h1 b)) (sym (sub32_add b bound))
      (free_block_found list_fuel h h1 b (rw sane (==_refl (add32 b 16))) e)

-- What `kfree` leaves of the heap from the block `p` of the free list on, behind the block `prev`.
pub record Freed (h h' : Heap) (b prev p : ℕ) (rest : List (ℕ × ℕ)) : Type 0 where
  pub linked : Linked h' prev p rest
  pub others :
      (z : ℕ)
      → z ≢ p
      → z ≢ b
      → ((h'.header z).size ≡ (h.header z).size)
        × ((h'.header z).sanity_check ≡ (h.header z).sanity_check)

Freed-Joined :
    (h h1 h2 : Heap) (b prev p j : ℕ) (rest : List (ℕ × ℕ))
    → Kept h h1 b
    → Joined h1 h2 j
    → ((z : ℕ) → z ≢ p → z ≢ b → z ≢ j)
    → Linked h2 prev p rest
    → Freed h h2 b prev p rest
Freed-Joined h h1 h2 b prev p j rest k t away l = record {
  linked = l;
  others = λ z ne ne_b. (t.sizes z (away z ne ne_b) ∙ k.sizes z, t.sanity z ∙ k.sanity z ne_b);
}

pub Freed-First :
    (fuel : ℕ) (h : Heap) (b m : ℕ) (rs : List (ℕ × ℕ)) (f : First fuel h b m rs)
    → b + 16 + m < 2 ^ 31
    → Sorted (b + 16 + m) rs
    → stale_above (b + 16 + m) rs ≡ false
    → ((joined f.heap b).free_list ≡ b) × Freed h (joined f.heap b) b 0 b (join_above b m rs)
Freed-First fuel h b m rs f bound s fresh =
    let same : join_low f.heap b ≡ (b, f.heap) =
      join_low_apart f.heap b 0 f.linked.3 (λ ne. absurd (ne refl)) in
    let (l, t) = join_high-Linked f.heap 0 b m rs f.linked (omega arith, bound, s) fresh in
    rw same (
      t.list ∙ f.list,
      Freed-Joined h f.heap (join_high f.heap b) b 0 b b (join_above b m rs) f.kept t
          (λ z ne ne_b. ne_b) l,
    )

-- The outcome when the block is put behind the block `p`.
abbrev FreedBehind : (h h' : Heap) (b prev p : ℕ) → List (ℕ × ℕ) → Type 0
FreedBehind h h' b prev p rest =
    (h'.free_list ≡ h.free_list)
    × ((z : ℕ) → z < p → SameLinks (h'.header z) (h.header z))
    × Freed h h' b prev p rest

pub SameLinks-trans : {p q r : Header} → SameLinks p q → SameLinks q r → SameLinks p r
SameLinks-trans s t = record {
  size = s.size ∙ t.size;
  prev = s.prev ∙ t.prev;
  next = s.next ∙ t.next;
}

Freed-adjoining :
    (fuel : ℕ) (h : Heap) (prev p n b m : ℕ) (hs : List (ℕ × ℕ)) (f : Behind fuel h prev p n b m hs)
    → (p + 16 + n == b) ≡ true
    → b + 16 + m < 2 ^ 31
    → Sorted (b + 16 + m) hs
    → stale_above (b + 16 + m) hs ≡ false
    → FreedBehind h (joined f.heap b) b prev p (join_above p (n + 16 + m) hs)
Freed-adjoining fuel h prev p n b m hs f adjoins bound s fresh =
    let e : p + 16 + n ≡ b = eq_of_== (p + 16 + n) b adjoins in
    let top : p + 16 + (n + 16 + m) ≡ b + 16 + m = omega (arith, e) in
    let (at, l1, t1) =
      join_low-Linked f.heap prev p n b m hs f.linked
        (omega arith, omega (arith, e), (omega (arith, e), bound, s)) adjoins in
    let low : Heap = (join_low f.heap b).1 in
    let (l2, t2) =
      join_high-Linked low prev p (n + 16 + m) hs l1 (omega arith, omega (arith, top), rw top s)
        (rw top fresh) in
    rw at (
      t2.list ∙ t1.list ∙ f.list,
      (λ z lt. SameLinks-trans (t2.below z lt) (SameLinks-trans (t1.below z lt) (f.below z lt))),
      record {
        linked = l2;
        others = λ z ne ne_b. (
          t2.sizes z ne ∙ t1.sizes z ne ∙ f.kept.sizes z,
          t2.sanity z ∙ t1.sanity z ∙ f.kept.sanity z ne_b,
        );
      },
    )

Freed-apart :
    (fuel : ℕ) (h : Heap) (prev p n b m : ℕ) (hs : List (ℕ × ℕ)) (f : Behind fuel h prev p n b m hs)
    → p + 16 + n < b
    → b + 16 + m < 2 ^ 31
    → Sorted (b + 16 + m) hs
    → stale_above (b + 16 + m) hs ≡ false
    → FreedBehind h (joined f.heap b) b prev p ((p, n) ∷ join_above b m hs)
Freed-apart fuel h prev p n b m hs f lt bound s fresh =
    let l = f.linked in
    let same : join_low f.heap b ≡ (b, f.heap) =
      join_low_apart f.heap b p l.4.3 (λ ne. (omega (arith, l.2), omega (arith, l.2))) in
    let (l1, t) =
      join_high-Linked f.heap p b m hs (refl, l.4.1, l.4.2, l.4.3, l.4.4) (omega arith, bound, s)
        fresh in
    let at_p = t.below p (omega arith) in
    rw same (
      t.list ∙ f.list,
      (λ z z_lt. SameLinks-trans (t.below z (omega arith)) (f.below z z_lt)),
      Freed-Joined h f.heap (join_high f.heap b) b prev p b ((p, n) ∷ join_above b m hs) f.kept t
          (λ z ne ne_b. ne_b)
          (refl, l.1, at_p.size ∙ l.2, at_p.prev ∙ l.3, rw (at_p.next ∙ l.4.0) l1),
    )

pub Freed-Behind :
    (fuel : ℕ) (h : Heap) (prev p n b m : ℕ) (hs : List (ℕ × ℕ)) (f : Behind fuel h prev p n b m hs)
    → p + 16 + n ≤ b
    → b + 16 + m < 2 ^ 31
    → Sorted (b + 16 + m) hs
    → stale_above (b + 16 + m) hs ≡ false
    → FreedBehind h (joined f.heap b) b prev p (put_back b m ((p, n) ∷ hs))
Freed-Behind fuel h prev p n b m hs f le bound s fresh =
    let above : ltb b p ≡ false = ground arith in
    elim (Bool-cases (p + 16 + n == b)) [
      | inl adjoins ↦
          rw (above, adjoins) (Freed-adjoining fuel h prev p n b m hs f adjoins bound s fresh)
      | inr apart ↦
          rw (above, apart, put_back_first b m hs s)
            (Freed-apart fuel h prev p n b m hs f (ground (arith, apart)) bound s fresh)
    ]
