-- ===== src/Boot/First.antt =====
-- The creation of the first two processes in c/init.c.
use mathlib.Core.Path.{subst}
use cs415_a.Base.{
  ℕ, suc, ◌+◌, ◌-◌, ◌<◌, ◌≤◌, ◌≡◌, ◌≢◌, ◌∙◌, refl, sym, ap, ==_refl, List, [], ◌∷◌, some, length,
  arith, Returns, ok, bind_ok, inl, inr,
}
use cs415_a.Boot.{Entries, create_first, set_idle}
use cs415_a.Boot.Heap.{kmalloc-cuts}
use cs415_a.Create.{create, find_pcb}
use cs415_a.Create.Start.{Started, create-Started}
use cs415_a.Heap.{Heap, kmalloc, list_fuel}
use cs415_a.Heap.Malloc.{IsHeap}
use cs415_a.Image.{Image}
use cs415_a.Kernel.{Kernel, Pcb, State, Slot, read_slot}
use cs415_a.PidMap.{leaf, lookup, height}
use cs415_a.PidMap.Balance.{IsAvl}
use cs415_a.PidMap.Order.{IsOrdered, Below}
use cs415_a.Queue.{queue_fuel}
use cs415_a.Queue.Chain.{Chain, Distinct, Apart}

find_pcb_here :
    (rounds i : ℕ) (table : ℕ → Pcb)
    → (table i).state ≡ State.stopped
    → find_pcb (suc rounds) i table ≡ some i
unfolding find_pcb
find_pcb_here rounds i table e = rw e refl

find_pcb_next :
    (rounds i : ℕ) (table : ℕ → Pcb)
    → (table i).state ≡ State.ready
    → find_pcb (suc rounds) i table ≡ find_pcb rounds (i + 1) table
unfolding find_pcb
find_pcb_next rounds i table e = rw e refl

-- The blocks that the two allocations of a process leave.
abbrev pub cut : ℕ × ℕ → ℕ × ℕ
cut (a, n) = (a + 16 + 8304 + 16 + 32, n - 8304 - 16 - 32 - 16)

abbrev pub taken : ℕ × ℕ → List (ℕ × ℕ) → List (ℕ × ℕ)
taken (a, n) us = (a + 16 + 8304, 32) ∷ (a, 8304) ∷ us

-- Memory for a stack and a node.
two_blocks :
    (h : Heap) (a n : ℕ) (rs us : List (ℕ × ℕ))
    → IsHeap h ((a, n) ∷ rs) us
    → suc (length rs) < list_fuel
    → 8400 < n
    → (ptr : ℕ) × (h1 : Heap) × (addr : ℕ) × (h2 : Heap) × (kmalloc h 8300 ≡ ok (ptr, h1))
      × (ptr ≢ 0)
      × (kmalloc h1 20 ≡ ok (addr, h2))
      × (addr ≢ 0)
      × IsHeap h2 (cut (a, n) ∷ rs) (taken (a, n) us)
two_blocks h a n rs us v few room =
    let ((ptr, h1), run, (here, pos, v1)) =
      kmalloc-cuts h 8300 a n rs us v few (omega arith) (omega arith) (omega arith) in
    let ((addr, h2), run', (here', pos', v2)) =
      kmalloc-cuts h1 20 (a + 16 + 8304) (n - 8304 - 16) rs ((a, 8304) ∷ us) v1 few (omega arith)
        (omega arith) (omega arith) in
    (ptr, h1, addr, h2, run, omega (arith, here), run', omega (arith, here'), v2)

-- The two first processes: the root process with PID 1 and the idle process with PID 2 are ready, in
-- this order, and the heap has their stacks and the nodes of the map.
pub record Booted (free : ℕ × ℕ) (rs : List (ℕ × ℕ)) (k' : Kernel) : Type 0 where
  pub queue : Chain k' Slot.ready_slot (0 ∷ 1 ∷ [])
  pub idle : k'.idle ≡ some 1
  pub root_pid : lookup k'.pid_map 1 ≡ some 0
  pub idle_pid : lookup k'.pid_map 2 ≡ some 1
  pub next_pid : k'.next_pid ≡ 3
  pub blocks : IsHeap k'.heap (cut (cut free) ∷ rs) (taken (cut free) (taken free []))

-- The kernel before a process is created: the process to come gets the `i`-th PCB and the PID `pid`.
record Before (k : Kernel) (i pid : ℕ) (ps : List ℕ) : Type 0 where
  queue : Chain k Slot.ready_slot ps
  free : find_pcb 256 0 k.pcb_table ≡ some i
  next_pid : k.next_pid ≡ pid
  balanced : IsAvl k.pid_map
  ordered : IsOrdered k.pid_map
  below : Below pid k.pid_map
  low : height k.pid_map ≤ 1

set_idle_lem :
    (pid i : ℕ) (k : Kernel)
    → lookup k.pid_map pid ≡ some i
    → (k.pcb_table i).state ≡ State.ready
    → set_idle pid k ≡ ok (record k { idle = some i })
unfolding set_idle
set_idle_lem pid i k e s = rw (set_idle, e) (rw s refl)

module _ (image : Image) (k : Kernel) (func i pid : ℕ) (ps : List ℕ) (a n : ℕ)
    (rs us : List (ℕ × ℕ)) (v : IsHeap k.heap ((a, n) ∷ rs) us) (few : suc (length rs) < list_fuel)
    (room : 8400 < n) (b : Before k i pid ps) (pos : pid ≢ 0) (short : length ps < queue_fuel) where
  created :
      Distinct ps
      → Apart (Slot.next_slot i) ps
      → Returns
          (λ (pid', k').
            (ptr : ℕ) × (h2 : Heap) × IsHeap h2 (cut (a, n) ∷ rs) (taken (a, n) us)
            × Started image k i func 0x2000 0 ptr ps pid' h2 k')
          (create image k func 0x2000 0)
  created d apart =
      let (ptr, h1, addr, h2, run, here, run', here', v') =
        two_blocks k.heap a n rs us v few room in
      let (r, made, started) =
        create-Started image k i func 0x2000 0 ps ptr h1 addr h2 run here b.free run' here'
          (omega (arith, b.next_pid)) b.balanced b.ordered
          (subst (λ p. Below p k.pid_map) (sym b.next_pid) b.below) (omega (arith, b.low)) b.queue d
          apart short in
      (r, made, (ptr, h2, v', started))

-- The kernel as `init_all` leaves it.
pub record Fresh (k : Kernel) (a n : ℕ) (rs : List (ℕ × ℕ)) : Type 0 where
  pub queue : Chain k Slot.ready_slot []
  pub first : (k.pcb_table 0).state ≡ State.stopped
  pub second : (k.pcb_table 1).state ≡ State.stopped
  pub next_pid : k.next_pid ≡ 1
  pub pid_map : k.pid_map ≡ leaf
  pub blocks : IsHeap k.heap ((a, n) ∷ rs) []
  pub few : suc (length rs) < list_fuel
  pub room : 17000 < n

Before-Fresh : (k : Kernel) (a n : ℕ) (rs : List (ℕ × ℕ)) → Fresh k a n rs → Before k 0 1 []
Before-Fresh k a n rs e = record {
  queue = e.queue;
  free = find_pcb_here 255 0 k.pcb_table e.first;
  next_pid = e.next_pid;
  balanced = subst IsAvl (sym e.pid_map) tt;
  ordered = subst IsOrdered (sym e.pid_map) tt;
  below = subst (Below 1) (sym e.pid_map) tt;
  low = rw e.pid_map (omega arith);
}

Before-Started :
    (image : Image) (k k' : Kernel) (func ptr : ℕ) (pid : ℕ) (h : Heap)
    → k.pid_map ≡ leaf
    → k.next_pid ≡ 1
    → (k.pcb_table 1).state ≡ State.stopped
    → Started image k 0 func 0x2000 0 ptr [] pid h k'
    → Before k' 1 2 (0 ∷ [])
Before-Started image k k' func ptr pid h empty first stopped s =
    let named : pid ≡ 1 = s.pid_new ∙ first in
    record {
      queue = s.queue;
      free =
          find_pcb_next 255 0 k'.pcb_table s.state
          ∙ find_pcb_here 254 1 k'.pcb_table (s.others 1 refl ∙ stopped);
      next_pid = omega (arith, s.next_pid, named);
      balanced = s.map.balanced;
      ordered = s.map.ordered;
      below = s.map.keys (λ x. x < 2) (omega (arith, named)) (subst (Below 2) (sym empty) tt);
      low = elim s.map.taller [
        | inl e ↦ omega (arith, e, ap height empty)
        | inr (e, _) ↦ omega (arith, e, ap height empty)
      ];
    }

Booted-Started :
    (image : Image) (k k1 k2 : Kernel) (f f' ptr ptr' pid pid' : ℕ) (h h' : Heap) (free : ℕ × ℕ)
    (rs : List (ℕ × ℕ))
    → k.next_pid ≡ 1
    → Started image k 0 f 0x2000 0 ptr [] pid h k1
    → k1.next_pid ≡ 2
    → Started image k1 1 f' 0x2000 0 ptr' (0 ∷ []) pid' h' k2
    → IsHeap h' (cut (cut free) ∷ rs) (taken (cut free) (taken free []))
    → (set_idle pid' k2 ≡ ok (record k2 { idle = some 1 }))
      × Booted free rs (record k2 { idle = some 1 })
unfolding read_slot
Booted-Started image k k1 k2 f f' ptr ptr' pid pid' h h' free rs first s second s' w =
    let named : pid ≡ 1 = s.pid_new ∙ first in
    let named' : pid' ≡ 2 = s'.pid_new ∙ second in
    let mapped : lookup k2.pid_map pid' ≡ some 1 = s'.map.maps pid' ∙ rw (==_refl pid') refl in
    (
      set_idle_lem pid' 1 k2 mapped s'.state,
      record {
        queue = s'.queue;
        idle = refl;
        root_pid = s'.map.maps 1 ∙ rw named' (s.map.maps 1 ∙ rw named refl);
        idle_pid = rw named' at mapped;
        next_pid = omega (arith, s'.next_pid, named');
        blocks =
            subst (λ x. IsHeap x (cut (cut free) ∷ rs) (taken (cut free) (taken free [])))
              (sym s'.heap) w;
      },
    )

pub create_first-Booted :
    (image : Image) (e : Entries) (k : Kernel) (a n : ℕ) (rs : List (ℕ × ℕ))
    → Fresh k a n rs
    → Returns (Booted (a, n) rs) (create_first image e k)
unfolding create_first queue_fuel
create_first-Booted image e k a n rs v =
    let ((pid, k1), run, (ptr, h, w, s)) =
      created image k e.root 0 1 [] a n rs [] v.blocks v.few (omega (arith, v.room))
        (Before-Fresh k a n rs v) (omega arith) (omega arith) tt tt in
    let b1 = Before-Started image k k1 e.root ptr pid h v.pid_map v.next_pid v.second s in
    let w1 : IsHeap k1.heap (cut (a, n) ∷ rs) (taken (a, n) []) =
      subst (λ x. IsHeap x (cut (a, n) ∷ rs) (taken (a, n) [])) (sym s.heap) w in
    let ((pid', k2), run', (ptr', h', w', s')) =
      created image k1 e.idleproc 1 2 (0 ∷ []) (cut (a, n)).0 (cut (a, n)).1 rs (taken (a, n) []) w1
        v.few (omega (arith, v.room)) b1 (omega arith) (omega arith) (tt, tt) (refl, tt) in
    let (idle_set, booted) =
      Booted-Started image k k1 k2 e.root e.idleproc ptr ptr' pid pid' h h' (a, n) rs v.next_pid s
        b1.next_pid s' w' in
    (
      record k2 { idle = some 1 },
      bind_ok (create image k e.root 0x2000 0) (pid, k1) _ run
          ∙ bind_ok (create image k1 e.idleproc 0x2000 0) (pid', k2) _ run'
          ∙ idle_set,
      booted,
    )
