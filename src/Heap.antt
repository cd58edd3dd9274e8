-- ===== src/Heap.antt =====
-- c/mem.c: the memory manager. An address is a number, and NULL is 0. The headers of the blocks,
-- free and allocated, are a map from the address where a header stands.
pub mod FreeList
pub mod Take
pub mod Took
pub mod Segment
pub mod Join
pub mod JoinLow
pub mod Place
pub mod Insert
pub mod Release
pub mod Free
pub mod Alloc
pub mod Malloc
pub mod Allotted
pub mod Outcome
pub mod Reclaim
pub mod Stale
pub mod Torn
pub mod Init
use cs415_a.Base.{
  ℕ, zero, suc, ◌+◌, ◌-◌, ◌*◌, ◌/◌, ◌%◌, ◌^◌, ◌&&◌, ltb, ◌==◌, ◌!=◌, if◌then◌else◌, update, Run, ok,
  out_of_fuel, ◌>>=◌,
}
use cs415_a.Base.Word.{add32, sub32, lt_int}

-- `memHeader`; its `dataStart` is the address 16 bytes behind the header's
pub record Header : Type 0 where
  pub size : ℕ
  pub prev : ℕ
  pub next : ℕ
  pub sanity_check : ℕ

pub record Heap : Type 0 where
  pub free_list : ℕ
  pub header : ℕ → Header

abbrev pub header_size : ℕ
header_size = 16

-- HOLESTART, HOLEEND and FREEMEM_END
abbrev pub hole_start : ℕ
hole_start = 640 * 1024

abbrev pub hole_end : ℕ
hole_end = (1024 + 600) * 1024

abbrev pub freemem_end : ℕ
freemem_end = 0x400000

-- More rounds than there are places for a header below FREEMEM_END.
unfoldable pub list_fuel : ℕ
list_fuel = 262145

abbrev pub data_start : ℕ → ℕ
data_start a = add32 a header_size

abbrev pub set_size : Heap → ℕ → ℕ → Heap
set_size h a v = record h { header = update h.header a (record (h.header a) { size = v }) }

abbrev pub set_prev : Heap → ℕ → ℕ → Heap
set_prev h a v = record h { header = update h.header a (record (h.header a) { prev = v }) }

abbrev pub set_next : Heap → ℕ → ℕ → Heap
set_next h a v = record h { header = update h.header a (record (h.header a) { next = v }) }

abbrev pub set_sanity : Heap → ℕ → ℕ → Heap
set_sanity h a v = record h {
  header = update h.header a (record (h.header a) { sanity_check = v });
}

-- (n / 16 + (n % 16 ? 1 : 0)) * 16
abbrev pub align16 : ℕ → ℕ
align16 n = (n / 16 + (if n % 16 != 0 then 1 else 0)) * 16 % 2 ^ 32

unfoldable pub kmeminit : (freemem : ℕ) → Heap → Heap
kmeminit freemem h =
    let start = align16 freemem in
    record {
      free_list = start;
      header =
          update
            (update h.header start (record {
              size = sub32 (sub32 hole_start header_size) start;
              prev = 0;
              next = hole_end;
              sanity_check = 0;
            }))
            hole_end
            (record {
              size = freemem_end - hole_end - header_size;
              prev = start;
              next = 0;
              sanity_check = 0;
            });
    }

-- `while (node != NULL && node->size < amount) node = node->next;`
unfoldable pub find_fit : ℕ → Heap → ℕ → ℕ → Run ℕ
find_fit zero h node amount = out_of_fuel
find_fit (suc fuel) h node amount =
    let rest = find_fit fuel h (h.header node).next amount in
    if (node != 0) && ltb (h.header node).size amount then rest else ok node

-- What follows the node in the free list: the rest of it if it is split, else its successor.
unfoldable pub split_node : Heap → (node amount : ℕ) → ℕ × Heap
split_node h node amount =
    let rmd_size = sub32 (sub32 (h.header node).size amount) header_size in
    let after = (h.header node).next in
    let next_node = add32 (data_start node) amount in
    let split = set_next (set_size h next_node rmd_size) next_node after in
    if lt_int 0 rmd_size
    then (next_node, if after != 0 then set_prev split after next_node else split)
    else (after, h)

-- `if (nextNode) …` and `if (node->prev) … else …`
unfoldable pub unlink_node : Heap → (node next_node : ℕ) → Heap
unlink_node h node next_node =
    let h1 = if next_node != 0 then set_prev h next_node (h.header node).prev else h in
    if (h1.header node).prev != 0
    then set_next h1 (h1.header node).prev next_node
    else record h1 { free_list = next_node }

unfoldable pub claim_node : Heap → (node amount : ℕ) → Heap
claim_node h node amount =
    set_sanity (set_prev (set_next (set_size h node amount) node 0) node 0) node (data_start node)

-- The case that a node is found: it is split, unlinked, and its header set.
unfoldable pub take_node : Heap → (node amount : ℕ) → ℕ × Heap
unfolding split_node unlink_node claim_node
take_node h node amount =
    let (next_node, h1) = split_node h node amount in
    (data_start node, claim_node (unlink_node h1 node next_node) node amount)

unfoldable pub kmalloc_fuel : ℕ → Heap → ℕ → Run (ℕ × Heap)
unfolding find_fit take_node
kmalloc_fuel fuel h size =
    let search = find_fit fuel h h.free_list (align16 size) >>= λ node.
    if node == 0 then ok (0, h) else ok (take_node h node (align16 size)) in
    if lt_int 0 size then search else ok (0, h)

unfoldable pub kmalloc : Heap → ℕ → Run (ℕ × Heap)
unfolding kmalloc_fuel list_fuel
kmalloc h size = kmalloc_fuel list_fuel h size

-- `while (freeNode->next != NULL && hdr > freeNode->next) freeNode = freeNode->next;`
unfoldable pub find_place : ℕ → Heap → (node hdr : ℕ) → Run ℕ
find_place zero h node hdr = out_of_fuel
find_place (suc fuel) h node hdr =
    let after = (h.header node).next in
    let rest = find_place fuel h after hdr in
    if (after != 0) && ltb after hdr then rest else ok node

unfoldable pub insert_after : Heap → (node hdr : ℕ) → Heap
insert_after h node hdr =
    let after = (h.header node).next in
    let h1 = if after != 0 then set_prev (set_next h hdr after) after hdr else h in
    set_prev (set_next h1 node hdr) hdr node

-- Puts the block back in address order.
unfoldable pub insert_free : ℕ → Heap → ℕ → Run Heap
unfolding find_place insert_after
insert_free fuel h hdr =
    if h.free_list == 0
    then ok (record h { free_list = hdr })
    else if ltb hdr h.free_list
    then ok (record (set_next (set_prev h h.free_list hdr) hdr h.free_list) { free_list = hdr })
    else (do node ← find_place fuel h h.free_list hdr; ok (insert_after h node hdr))

-- Coalesces with the free block below, and returns the block that `hdr` is then.
unfoldable pub join_low : Heap → ℕ → ℕ × Heap
join_low h hdr =
    let low = (h.header hdr).prev in
    let h1 =
      set_next (set_size h low (add32 (h.header low).size (add32 (h.header hdr).size header_size)))
        low (h.header hdr).next in
    let after = (h1.header hdr).next in
    if (low != 0) && (add32 (data_start low) (h.header low).size == hdr)
    then (low, if after != 0 then set_prev h1 after low else h1)
    else (hdr, h)

-- Coalesces with the free block above.
unfoldable pub join_high : Heap → ℕ → Heap
join_high h hdr =
    let high = (h.header hdr).next in
    let h1 = set_size h hdr (add32 (h.header hdr).size (add32 (h.header high).size header_size)) in
    let h2 = set_next h1 hdr (h1.header high).next in
    let after = (h2.header hdr).next in
    if (high != 0) && (add32 (data_start hdr) (h.header hdr).size == high)
    then (if (after != 0) && ((h2.header after).next != 0)
        then set_prev h2 (h2.header after).next hdr
        else h2)
    else h

-- Puts the block with the header `hdr` back, if it passes the sanity check.
unfoldable pub free_block : ℕ → Heap → ℕ → Run Heap
unfolding insert_free join_low join_high
free_block fuel h hdr =
    let freed = set_sanity (set_prev (set_next h hdr 0) hdr 0) hdr 0 in
    if (h.header hdr).sanity_check == data_start hdr
    then (do
      h1 ← insert_free fuel freed hdr
      let (joined, h2) = join_low h1 hdr
      ok (join_high h2 joined))
    else ok h

unfoldable pub kfree : Heap → ℕ → Run Heap
unfolding free_block list_fuel
kfree h ptr = free_block list_fuel h (sub32 ptr header_size)
