-- ===== src/Queue/Remove.antt =====
-- The loop that unlinks a process by its PID from a queue of senders or receivers (c/msg.c).
use cs415_a.Base.{
  ℕ, zero, suc, ◌<◌, false, ◌==◌, if◌then◌else◌, Option, none, some, List, [], ◌∷◌, length, ◌≡◌,
  ◌∙◌, refl, inl, inr, arith, Returns, Bool-cases,
}
use cs415_a.Kernel.{Kernel, Pcb, Slot, read_slot, write_slot}
use cs415_a.Kernel.Slots.{slot_eq, slot_eq_refl, read-write_slot}
use cs415_a.Queue.{remove_pid}
use cs415_a.Queue.Chain.{Chain, Apart, Distinct, Chain-move, SameNext-of_Apart}

-- The first process of the list with the PID, and the list without it.
abbrev pub take_pid : (ℕ → Pcb) → ℕ → List ℕ → Option ℕ × List ℕ
take_pid table pid [] = (none, [])
take_pid table pid (p ∷ ps) =
    if (table p).pid == pid
    then (some p, ps)
    else ((take_pid table pid ps).0, p ∷ (take_pid table pid ps).1)

-- What the loop returns, on a queue that starts at the slot `s`.
pub record Removed (k : Kernel) (s : Slot) (pid : ℕ) (ps : List ℕ) (r : Option ℕ × Kernel)
    : Type 0 where
  pub found : r.0 ≡ (take_pid k.pcb_table pid ps).0
  pub queue : Chain r.1 s (take_pid k.pcb_table pid ps).1
  pub same : (t : Slot) → slot_eq s t ≡ false → Apart t ps → read_slot r.1 t ≡ read_slot k t

remove_hit :
    (k : Kernel) (s : Slot) (p : ℕ) (ps : List ℕ)
    → Chain k (Slot.next_slot p) ps
    → Apart s ps
    → Chain (write_slot k s (k.pcb_table p).next) s ps
unfolding read_slot
remove_hit k s p ps c a =
    let k' = write_slot k s (k.pcb_table p).next in
    Chain-move k k' (Slot.next_slot p) s ps (read-write_slot k s s _ ∙ rw (slot_eq_refl s))
      (SameNext-of_Apart k k' s ps (λ i e. read-write_slot k s (Slot.next_slot i) _ ∙ rw e) a) c

-- A chain of distinct processes, fewer than the rounds given, starts at the slot `s`, which is not
-- one of their links. Then the loop returns the first process with the PID, or none; the chain from
-- `s` is the one before without that process, and every slot apart from the chain is as before.
pub remove_pid-Removed :
    (fuel : ℕ) (k : Kernel) (s : Slot) (pid : ℕ) (ps : List ℕ)
    → Chain k s ps
    → Apart s ps
    → Distinct ps
    → length ps < fuel
    → Returns (Removed k s pid ps) (remove_pid fuel k s pid)
unfolding remove_pid
remove_pid-Removed zero k s pid ps c a d h = elim h [ ]
remove_pid-Removed (suc fuel) k s pid [] c a d h =
    ((none, k), rw (c, remove_pid), record { found = refl; queue = c; same = λ t e f. refl })
remove_pid-Removed (suc fuel) k s pid (p ∷ ps) c a d h =
    elim (Bool-cases ((k.pcb_table p).pid == pid)) [
      | inl hit ↦ (
        (some p, write_slot k s (k.pcb_table p).next),
        rw (c.0, remove_pid) (rw hit),
        record {
          found = rw hit;
          queue = rw hit (remove_hit k s p ps c.1 a.1);
          same = λ t e f. read-write_slot k s t _ ∙ rw e;
        },
      )
      | inr miss ↦
          let (r, e, done) =
            remove_pid-Removed fuel k (Slot.next_slot p) pid ps c.1 d.0 d.1 (omega arith) in
          (
            r,
            rw (c.0, remove_pid) (rw miss e),
            record {
              found = rw miss done.found;
              queue = rw miss (done.same s a.0 a.1 ∙ c.0, done.queue);
              same = λ t f g. done.same t g.0 g.1;
            },
          )
    ]
