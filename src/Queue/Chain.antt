-- ===== src/Queue/Chain.antt =====
-- A queue as the list of the PCBs that its pointers lead through.
use cs415_a.Base.{
  ℕ, zero, suc, ◌<◌, false, none, some, List, [], ◌∷◌, ◌++◌, length, ◌≡◌, ◌∙◌, arith, ok,
}
use cs415_a.Kernel.{Kernel, Slot, read_slot}
use cs415_a.Kernel.Slots.{slot_eq, slot_eq_comm}
use cs415_a.Queue.{find_end}
use mathlib.Core.List.{append_assoc}

abbrev pub Chain : Kernel → Slot → List ℕ → Type 0
Chain k s [] = read_slot k s ≡ none
Chain k s (p ∷ ps) = (read_slot k s ≡ some p) × Chain k (Slot.next_slot p) ps

-- The slot is not the `next` of a PCB of the list.
abbrev pub Apart : Slot → List ℕ → Type 0
Apart s [] = Unit
Apart s (p ∷ ps) = (slot_eq (Slot.next_slot p) s ≡ false) × Apart s ps

-- The head of a queue is no `next`.
pub Apart-head :
    (s : Slot) → ((i : ℕ) → slot_eq (Slot.next_slot i) s ≡ false) → (ps : List ℕ) → Apart s ps
Apart-head s e [] = tt
Apart-head s e (p ∷ ps) = (e p, Apart-head s e ps)

abbrev pub Distinct : List ℕ → Type 0
Distinct [] = Unit
Distinct (p ∷ ps) = Apart (Slot.next_slot p) ps × Distinct ps

-- The slot where a process is appended.
abbrev pub last_slot : Slot → List ℕ → Slot
last_slot s [] = s
last_slot s (p ∷ ps) = last_slot (Slot.next_slot p) ps

pub find_end_lem :
    (fuel : ℕ) (k : Kernel) (s : Slot) (ps : List ℕ)
    → Chain k s ps
    → length ps < fuel
    → find_end fuel k s ≡ ok (last_slot s ps)
unfolding find_end
find_end_lem zero k s ps c h = elim h [ ]
find_end_lem (suc fuel) k s [] c h = rw (c, find_end)
find_end_lem (suc fuel) k s (p ∷ ps) c h =
    rw (c.0, find_end) (find_end_lem fuel k (Slot.next_slot p) ps c.1 (ground arith))

pub last_slot-ne :
    (s w : Slot) (ps : List ℕ)
    → slot_eq s w ≡ false
    → Apart w ps
    → slot_eq (last_slot s ps) w ≡ false
last_slot-ne s w [] e a = e
last_slot-ne s w (p ∷ ps) e a = last_slot-ne (Slot.next_slot p) w ps a.0 a.1

-- The `next` fields of the PCBs are the same in both kernels.
abbrev pub SameNext : Kernel → Kernel → List ℕ → Type 0
SameNext k k' [] = Unit
SameNext k k' (p ∷ ps) =
    (read_slot k' (Slot.next_slot p) ≡ read_slot k (Slot.next_slot p)) × SameNext k k' ps

-- A chain survives what spares its slots.
pub Chain-frame :
    (k k' : Kernel) (s : Slot) (ps : List ℕ)
    → read_slot k' s ≡ read_slot k s
    → SameNext k k' ps
    → Chain k s ps
    → Chain k' s ps
Chain-frame k k' s [] e same c = e ∙ c
Chain-frame k k' s (p ∷ ps) e same c =
    (e ∙ c.0, Chain-frame k k' (Slot.next_slot p) ps same.0 same.1 c.1)

-- The slot takes over a chain that began at another.
pub Chain-move :
    (k k' : Kernel) (s s' : Slot) (ps : List ℕ)
    → read_slot k' s' ≡ read_slot k s
    → SameNext k k' ps
    → Chain k s ps
    → Chain k' s' ps
Chain-move k k' s s' [] e same c = e ∙ c
Chain-move k k' s s' (p ∷ ps) e same c =
    (e ∙ c.0, Chain-frame k k' (Slot.next_slot p) ps same.0 same.1 c.1)

-- A chain of `next` pointers is not touched.
pub SameNext-all :
    (k k' : Kernel) (ps : List ℕ)
    → ((i : ℕ) → read_slot k' (Slot.next_slot i) ≡ read_slot k (Slot.next_slot i))
    → SameNext k k' ps
SameNext-all k k' [] same = tt
SameNext-all k k' (p ∷ ps) same = (same p, SameNext-all k k' ps same)

-- One slot is written that is not the `next` of a PCB of the list.
pub SameNext-of_Apart :
    (k k' : Kernel) (w : Slot) (ps : List ℕ)
    → ((i : ℕ)
        → slot_eq w (Slot.next_slot i) ≡ false
        → read_slot k' (Slot.next_slot i) ≡ read_slot k (Slot.next_slot i))
    → Apart w ps
    → SameNext k k' ps
SameNext-of_Apart k k' w [] same a = tt
SameNext-of_Apart k k' w (p ∷ ps) same a =
    (same p (slot_eq_comm w (Slot.next_slot p) ∙ a.0), SameNext-of_Apart k k' w ps same a.1)

-- None of the PCBs `qs` is `p` or one of `ps`.
abbrev pub Disjoint : ℕ → List ℕ → List ℕ → Type 0
Disjoint p ps [] = Unit
Disjoint p ps (q ∷ qs) =
    (slot_eq (Slot.next_slot p) (Slot.next_slot q) ≡ false)
    × Apart (Slot.next_slot q) ps
    × Disjoint p ps qs

pub SameNext-of_Disjoint :
    (k k' : Kernel) (s : Slot) (p : ℕ) (ps qs : List ℕ)
    → ((t : Slot)
        → slot_eq (last_slot s ps) t ≡ false
        → slot_eq (Slot.next_slot p) t ≡ false
        → read_slot k' t ≡ read_slot k t)
    → ((i : ℕ) → slot_eq s (Slot.next_slot i) ≡ false)
    → Disjoint p ps qs
    → SameNext k k' qs
SameNext-of_Disjoint k k' s p ps [] same head d = tt
SameNext-of_Disjoint k k' s p ps (q ∷ qs) same head d = (
  same (Slot.next_slot q) (last_slot-ne s (Slot.next_slot q) ps (head q) d.1) d.0,
  SameNext-of_Disjoint k k' s p ps qs same head d.2,
)

-- Two slots are written: the last one, with the PCB, and the `next` of the PCB, with NULL.
pub Chain-append :
    (k k' : Kernel) (s : Slot) (p : ℕ) (ps : List ℕ)
    → ((t : Slot)
        → slot_eq (last_slot s ps) t ≡ false
        → slot_eq (Slot.next_slot p) t ≡ false
        → read_slot k' t ≡ read_slot k t)
    → read_slot k' (last_slot s ps) ≡ some p
    → read_slot k' (Slot.next_slot p) ≡ none
    → Apart s ps
    → Distinct ps
    → Apart (Slot.next_slot p) ps
    → slot_eq (Slot.next_slot p) s ≡ false
    → Chain k s ps
    → Chain k' s (ps ++ (p ∷ []))
Chain-append k k' s p [] same last new a d f e c = (last, new)
Chain-append k k' s p (x ∷ ps) same last new a d f e c = (
  same s (last_slot-ne (Slot.next_slot x) s ps a.0 a.1) e ∙ c.0,
  Chain-append k k' (Slot.next_slot x) p ps same last new d.0 d.1 f.1
      (slot_eq_comm (Slot.next_slot p) (Slot.next_slot x) ∙ f.0) c.1,
)

-- In a list of distinct PCBs each is apart from those before it and those behind it.
pub Apart-append_left : (s : Slot) (ps qs : List ℕ) → Apart s (ps ++ qs) → Apart s ps
Apart-append_left s [] qs a = tt
Apart-append_left s (p ∷ ps) qs a = (a.0, Apart-append_left s ps qs a.1)

pub Apart-append_right : (s : Slot) (ps qs : List ℕ) → Apart s (ps ++ qs) → Apart s qs
Apart-append_right s [] qs a = a
Apart-append_right s (p ∷ ps) qs a = Apart-append_right s ps qs a.1

pub Distinct-left : (ps qs : List ℕ) → Distinct (ps ++ qs) → Distinct ps
Distinct-left [] qs d = tt
Distinct-left (p ∷ ps) qs d =
    (Apart-append_left (Slot.next_slot p) ps qs d.0, Distinct-left ps qs d.1)

pub Distinct-right : (ps qs : List ℕ) → Distinct (ps ++ qs) → Distinct qs
Distinct-right [] qs d = d
Distinct-right (p ∷ ps) qs d = Distinct-right ps qs d.1

pub Apart-middle :
    (ps : List ℕ) (q : ℕ) (qs : List ℕ) → Distinct (ps ++ (q ∷ qs)) → Apart (Slot.next_slot q) ps
Apart-middle [] q qs d = tt
Apart-middle (p ∷ ps) q qs d = (
  slot_eq_comm (Slot.next_slot p) (Slot.next_slot q)
      ∙ (Apart-append_right (Slot.next_slot p) ps (q ∷ qs) d.0).0,
  Apart-middle ps q qs d.1,
)

pub Distinct-drop :
    (ps : List ℕ) (q : ℕ) (qs : List ℕ) → Distinct (ps ++ (q ∷ qs)) → Distinct (ps ++ qs)
Distinct-drop [] q qs d = d.1
Distinct-drop (p ∷ ps) q qs d = (drop (Slot.next_slot p) ps d.0, Distinct-drop ps q qs d.1)
  where
    drop : (s : Slot) (rs : List ℕ) → Apart s (rs ++ (q ∷ qs)) → Apart s (rs ++ qs)
    drop s [] a = a.1
    drop s (r ∷ rs) a = (a.0, drop s rs a.1)

Apart-behind :
    (ps : List ℕ) (p : ℕ) (qs : List ℕ) → Distinct (ps ++ (p ∷ qs)) → Apart (Slot.next_slot p) qs
Apart-behind [] p qs d = d.0
Apart-behind (x ∷ ps) p qs d = Apart-behind ps p qs d.1

pub Disjoint-middle : (p : ℕ) (ps qs : List ℕ) → Distinct (ps ++ (p ∷ qs)) → Disjoint p ps qs
Disjoint-middle p ps [] d = tt
Disjoint-middle p ps (q ∷ qs) d = (
  slot_eq_comm (Slot.next_slot p) (Slot.next_slot q) ∙ (Apart-behind ps p (q ∷ qs) d).0,
  Apart-middle ps q qs (Distinct-drop ps p (q ∷ qs) d),
  Disjoint-middle p ps qs
      (rw append_assoc at (Distinct-drop (ps ++ (p ∷ [])) q qs (rw append_assoc d))),
)
