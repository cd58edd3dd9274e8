-- ===== src/Heap/Reclaim.antt =====
-- `kfree` of c/mem.c on the heap as the list of its free and of its allocated blocks.

use cs415_a.Base.{ℕ, ◌+◌, ◌<◌, ◌≡◌, false, List, ◌∷◌, ◌++◌, length, arith, Returns}
use cs415_a.Heap.{Heap, kfree, list_fuel}
use cs415_a.Heap.Place.{place_lem}
use cs415_a.Heap.Release.{put_back, stale, Sorted-put_back}
use cs415_a.Heap.Malloc.{IsHeap}
use cs415_a.Heap.Allotted.{Allotted-Used, Placed-remove, Used-remove}
use cs415_a.Heap.Outcome.{Outcome-Place}

-- The heap consists of free and allocated blocks that lie apart; the free ones are fewer than 262145,
-- in the order of their addresses, and doubly linked. One of the allocated blocks does not adjoin a
-- free block above it, unless that is the last one. Then `kfree` of that block returns, and the heap
-- consists of the other allocated blocks and of the free ones with this one in its place, joined with
-- the free block below and the one above that it adjoins; they lie apart and are doubly linked again.
pub kfree-put_back :
    (h : Heap) (b m : ℕ) (rs before behind : List (ℕ × ℕ))
    → IsHeap h rs (before ++ ((b, m) ∷ behind))
    → length rs < list_fuel
    → stale b m rs ≡ false
    → Returns (λ h'. IsHeap h' (put_back b m rs) (before ++ behind)) (kfree h (b + 16))
kfree-put_back h b m rs before behind v few fresh =
    let a = Allotted-Used h b m rs before behind v.blocks v.placed in
    let o =
      Outcome-Place h b m rs v.linked v.sorted few a fresh (place_lem b m 1 rs v.sorted a.apart) in
    (
      o.heap,
      o.returned,
      record {
        linked = o.linked;
        sorted = Sorted-put_back 1 b m rs (omega (arith, a.ne_null)) a.bound v.sorted a.apart;
        blocks = Used-remove h o.heap b m rs (put_back b m rs) o.stays before behind v.blocks;
        placed = Placed-remove b m before behind v.placed;
      },
    )
