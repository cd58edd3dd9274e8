-- ===== src/Heap/Init.antt =====
-- `kmeminit` of c/mem.c.
use cs415_a.Base.{ℕ, ◌+◌, ◌-◌, ◌<◌, ◌≤◌, refl, List, [], ◌∷◌, arith}
use cs415_a.Heap.{Heap, kmeminit, align16, hole_start, hole_end, freemem_end}
use cs415_a.Heap.Malloc.{IsHeap}

-- The memory from the first aligned address to the hole, and that behind the hole.
abbrev pub regions : (freemem : ℕ) → List (ℕ × ℕ)
regions freemem =
    (align16 freemem, hole_start - 16 - align16 freemem)
    ∷ (hole_end, freemem_end - hole_end - 16)
    ∷ []

-- The free memory starts behind address 0, and at least 31 bytes before the hole. Then `kmeminit`
-- makes a heap with no allocated block and two free ones, which lie apart: from the first address
-- that is a multiple of 16 to the hole, and from the hole to the end of memory.
pub kmeminit-IsHeap :
    (freemem : ℕ) (h : Heap)
    → 0 < freemem
    → freemem + 31 ≤ hole_start
    → IsHeap (kmeminit freemem h) (regions freemem) []
unfolding kmeminit
kmeminit-IsHeap freemem h pos low = record {
  linked = (
    refl,
    ground arith,
    ground arith,
    ground arith,
    (ground arith, ground arith, ground arith, ground arith, ground arith),
  );
  sorted = (ground arith, ground arith, (ground arith, ground arith, tt));
  blocks = tt;
  placed = tt;
}
