-- ===== src/Heap/Torn.antt =====
-- `kfree` of c/mem.c when the block adjoins a free block that is not the last one.
use mathlib.Core.Path.{subst}
use cs415_a.Base.{
  ℕ, ◌+◌, ◌<◌, ◌≤◌, ◌^◌, ◌≡◌, ◌∙◌, refl, sym, ◌==◌, true, List, [], ◌∷◌, ◌++◌, arith, inl, inr,
  Bool-cases, eq_of_==, length, Returns,
}
use cs415_a.Heap.{Heap, join_high, join_low, kfree, list_fuel}
use cs415_a.Heap.FreeList.{Linked, Sorted}
use cs415_a.Heap.Segment.{Segment, Segment-frame, Linked-split, Sorted-split}
use cs415_a.Heap.Join.{stale_above}
use cs415_a.Heap.JoinLow.{join_low_apart, join_low-Linked}
use cs415_a.Heap.Place.{Place, place_lem}
use cs415_a.Heap.Insert.{First-insert_free, Behind}
use cs415_a.Heap.Release.{stale, stale_first, stale_behind}
use cs415_a.Heap.Free.{joined, kfree_found}
use cs415_a.Heap.Malloc.{IsHeap}
use cs415_a.Heap.Allotted.{Allotted, Allotted-Used}
use cs415_a.Heap.Free.{SameLinks-trans}
use cs415_a.Heap.Outcome.{Behind-split}
use cs415_a.Heap.Stale.{Torn, Torn-behind, Tears, Tears-join_high, Tears-First}

-- As seen from the block `p` behind which the block is put.
Tears-Behind :
    (fuel : ℕ) (h : Heap) (prev p n b m : ℕ) (hs : List (ℕ × ℕ)) (f : Behind fuel h prev p n b m hs)
    → p + 16 + n ≤ b
    → b + 16 + m < 2 ^ 31
    → Sorted (b + 16 + m) hs
    → stale_above (b + 16 + m) hs ≡ true
    → Tears h (joined f.heap b) prev p
Tears-Behind fuel h prev p n b m hs f le bound s stays =
    let above : stale_above (b + 16 + m) hs ≡ true = stays in
    elim (Bool-cases (p + 16 + n == b)) [
      | inl adjoins ↦
          let e : p + 16 + n ≡ b = eq_of_== (p + 16 + n) b adjoins in
          let top : p + 16 + (n + 16 + m) ≡ b + 16 + m = omega (arith, e) in
          let (at, l1, t1) =
            join_low-Linked f.heap prev p n b m hs f.linked
              (omega arith, omega (arith, e), (omega (arith, e), bound, s)) adjoins in
          let t2 =
            Tears-join_high (join_low f.heap b).1 prev p (n + 16 + m) hs l1
              (omega arith, omega (arith, top), rw top s) (rw top stays) in
          rw at (record {
            torn = t2.torn;
            below = λ z lt.
                SameLinks-trans (t2.below z lt) (SameLinks-trans (t1.below z lt) (f.below z lt));
            list = t2.list ∙ t1.list ∙ f.list;
          })
      | inr apart ↦
          let l = f.linked in
          let same : join_low f.heap b ≡ (b, f.heap) =
            join_low_apart f.heap b p l.4.3
              (λ ne. (ground (arith, apart, l.2), omega (arith, l.2))) in
          let t =
            Tears-join_high f.heap p b m hs (refl, l.4.1, l.4.2, l.4.3, l.4.4)
              (omega arith, bound, s) stays in
          let at_p = t.below p (ground (arith, apart)) in
          let next_p : ((join_high f.heap b).header p).next ≡ b = at_p.next ∙ l.4.0 in
          let here : Segment (join_high f.heap b) prev p ((p, n) ∷ []) p b =
            (refl, l.1, at_p.size ∙ l.2, at_p.prev ∙ l.3, (refl, next_p)) in
          rw same (record {
            torn = Torn-behind (join_high f.heap b) prev p p b ((p, n) ∷ []) here t.torn;
            below = λ z lt. SameLinks-trans (t.below z (ground (arith, apart))) (f.below z lt);
            list = t.list ∙ f.list;
          })
    ]

-- The heap `kfree` returns is torn.
abbrev TornOutcome : (h : Heap) (b : ℕ) → Type 0
TornOutcome h b = Returns (λ h'. Torn h' 0 h'.free_list) (kfree h (b + 16))

Torn-split :
    (h : Heap) (b m p n : ℕ) (ls hs : List (ℕ × ℕ))
    → Linked h 0 h.free_list (ls ++ ((p, n) ∷ hs))
    → Sorted 1 (ls ++ ((p, n) ∷ hs))
    → length (ls ++ ((p, n) ∷ hs)) < list_fuel
    → Allotted h b m (ls ++ ((p, n) ∷ hs))
    → p + 16 + n ≤ b
    → Sorted (b + 16 + m) hs
    → stale b m (ls ++ ((p, n) ∷ hs)) ≡ true
    → TornOutcome h b
Torn-split h b m p n ls hs l sorted few a le s stays =
    let (prev, node, seg, t) = Linked-split h 0 h.free_list ls ((p, n) ∷ hs) l in
    let low = (Sorted-split 1 ls p n hs sorted).0 in
    let f = Behind-split h b m p n ls hs l sorted few a le s prev node t in
    let tears =
      Tears-Behind list_fuel h prev p n b m hs f le a.bound s
        (sym (stale_behind b m p n ls hs low le s) ∙ stays) in
    let seg' : Segment h 0 h.free_list ls prev p =
      subst (λ q. Segment h 0 h.free_list ls prev q) t.0 seg in
    let h' : Heap = joined f.heap b in
    (
      h',
      kfree_found h f.heap b (omega (arith, a.bound)) a.sane f.inserted,
      subst (λ x. Torn h' 0 x) (sym tears.list)
          (Torn-behind h' 0 h.free_list prev p ls
            (Segment-frame h h' 0 h.free_list prev p p ls seg' low tears.below) tears.torn),
    )

Torn-Place :
    (h : Heap) (b m : ℕ) (rs : List (ℕ × ℕ))
    → Linked h 0 h.free_list rs
    → Sorted 1 rs
    → length rs < list_fuel
    → Allotted h b m rs
    → stale b m rs ≡ true
    → Place b m rs
    → TornOutcome h b
Torn-Place h b m rs l sorted few a stays (inl s) =
    let f = First-insert_free list_fuel h b m rs l a.ne_null a.size s in
    (
      joined f.heap b,
      kfree_found h f.heap b (omega (arith, a.bound)) a.sane f.inserted,
      Tears-First list_fuel h b m rs f a.bound s (sym (stale_first b m rs s) ∙ stays),
    )
Torn-Place h b m rs l sorted few a stays (inr (ls, p, n, hs, e, le, s)) =
    subst
      (λ xs.
        Linked h 0 h.free_list xs
        → Sorted 1 xs
        → length xs < list_fuel
        → Allotted h b m xs
        → stale b m xs ≡ true
        → TornOutcome h b)
      (sym e)
      (λ l' sorted' few' a' stays'. Torn-split h b m p n ls hs l' sorted' few' a' le s stays') l
      sorted few a stays

-- The heap consists of free and allocated blocks that lie apart; the free ones are fewer than 262145,
-- in the order of their addresses, and doubly linked. One of the allocated blocks adjoins a free
-- block above it that is not the last one. Then `kfree` of that block returns with a free list whose
-- links lead to a block whose successor has another block as its predecessor.
pub kfree-stale :
    (h : Heap) (b m : ℕ) (rs before behind : List (ℕ × ℕ))
    → IsHeap h rs (before ++ ((b, m) ∷ behind))
    → length rs < list_fuel
    → stale b m rs ≡ true
    → Returns (λ h'. Torn h' 0 h'.free_list) (kfree h (b + 16))
kfree-stale h b m rs before behind v few stays =
    let a = Allotted-Used h b m rs before behind v.blocks v.placed in
    Torn-Place h b m rs v.linked v.sorted few a stays (place_lem b m 1 rs v.sorted a.apart)
