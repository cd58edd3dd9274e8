-- ===== src/Queue/Rest.antt =====
-- What `ready` of c/disp.c leaves of the kernel, besides the links of the queues.
use cs415_a.Base.{ℕ, ◌<◌, ◌≡◌, ◌∙◌, refl, ◌==◌, false, Option, none, some, List, length, arith, ok}
use cs415_a.Kernel.{Kernel, Slot, write_slot}
use cs415_a.Queue.{queue_fuel, ready, link_ready}
use cs415_a.Queue.Chain.{Chain, last_slot}
use cs415_a.Queue.Ready.{ready_lem}

pub record SameRest (k k' : Kernel) : Type 0 where
  pub pid_map : k'.pid_map ≡ k.pid_map
  pub next_pid : k'.next_pid ≡ k.next_pid
  pub memory : k'.memory ≡ k.memory
  pub heap : k'.heap ≡ k.heap
  pub idle : k'.idle ≡ k.idle

pub SameRest-trans : {k k' k'' : Kernel} → SameRest k k' → SameRest k' k'' → SameRest k k''
SameRest-trans a b = record {
  pid_map = b.pid_map ∙ a.pid_map;
  next_pid = b.next_pid ∙ a.next_pid;
  memory = b.memory ∙ a.memory;
  heap = b.heap ∙ a.heap;
  idle = b.idle ∙ a.idle;
}

pub SameRest-write_slot : (k : Kernel) (s : Slot) (v : Option ℕ) → SameRest k (write_slot k s v)
unfolding write_slot
SameRest-write_slot k Slot.ready_slot v = record {
  pid_map = refl;
  next_pid = refl;
  memory = refl;
  heap = refl;
  idle = refl;
}
SameRest-write_slot k s v = record {
  pid_map = ground arith;
  next_pid = ground arith;
  memory = ground arith;
  heap = ground arith;
  idle = ground arith;
}

pub state-write_slot :
    (k : Kernel) (s : Slot) (v : Option ℕ) (j : ℕ)
    → ((write_slot k s v).pcb_table j).state ≡ (k.pcb_table j).state
unfolding write_slot
state-write_slot k Slot.ready_slot v j = refl
state-write_slot k s v j = ground arith

SameRest-link_ready : (k : Kernel) (w : Slot) (p : ℕ) → SameRest k (link_ready k w p)
unfolding link_ready
SameRest-link_ready k w p =
    let r =
      SameRest-trans (SameRest-write_slot k w (some p))
        (SameRest-write_slot (write_slot k w (some p)) (Slot.next_slot p) none) in
    record {
      pid_map = r.pid_map;
      next_pid = r.next_pid;
      memory = r.memory;
      heap = r.heap;
      idle = r.idle;
    }

state-link_ready :
    (k : Kernel) (w : Slot) (p j : ℕ)
    → (p == j) ≡ false
    → ((link_ready k w p).pcb_table j).state ≡ (k.pcb_table j).state
unfolding link_ready
state-link_ready k w p j e = rw e (state-write_slot k w (some p) j)

-- The kernel that `ready` returns is known.
linked_lem :
    (k k' : Kernel) (p : ℕ) (ps : List ℕ)
    → Chain k Slot.ready_slot ps
    → length ps < queue_fuel
    → ready k p ≡ ok k'
    → link_ready k (last_slot Slot.ready_slot ps) p ≡ k'
linked_lem k k' p ps c h e = cc (e, ready_lem k p ps c h)

pub ready-SameRest :
    (k k' : Kernel) (p : ℕ) (ps : List ℕ)
    → Chain k Slot.ready_slot ps
    → length ps < queue_fuel
    → ready k p ≡ ok k'
    → SameRest k k'
ready-SameRest k k' p ps c h e =
    rw⁻¹ (linked_lem k k' p ps c h e) (SameRest-link_ready k (last_slot Slot.ready_slot ps) p)

pub state-ready :
    (k k' : Kernel) (p : ℕ) (ps : List ℕ) (j : ℕ)
    → Chain k Slot.ready_slot ps
    → length ps < queue_fuel
    → ready k p ≡ ok k'
    → (p == j) ≡ false
    → (k'.pcb_table j).state ≡ (k.pcb_table j).state
state-ready k k' p ps j c h e other =
    rw⁻¹ (linked_lem k k' p ps c h e) (state-link_ready k (last_slot Slot.ready_slot ps) p j other)
