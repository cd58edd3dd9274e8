-- ===== src/Heap/Allotted.antt =====
-- The allocated block that `kfree` of c/mem.c frees, among the others.

use cs415_a.Base.{ℕ, ◌+◌, ◌<◌, ◌≤◌, ◌^◌, ◌≡◌, ◌≢◌, ◌⊎◌, ◌∙◌, List, [], ◌∷◌, ◌++◌, arith}
use cs415_a.Base.Word.{add32}
use cs415_a.Heap.{Heap}
use cs415_a.Heap.FreeList.{Clear}
use cs415_a.Heap.Malloc.{Used, Placed}

-- What is known of the allocated block that is freed.
pub record Allotted (h : Heap) (b m : ℕ) (rs : List (ℕ × ℕ)) : Type 0 where
  pub ne_null : b ≢ 0
  pub bound : b + 16 + m < 2 ^ 31
  pub size : (h.header b).size ≡ m
  pub sane : (h.header b).sanity_check ≡ add32 b 16
  pub apart : Clear b m rs

pub Allotted-Used :
    (h : Heap) (b m : ℕ) (rs before behind : List (ℕ × ℕ))
    → Used h rs (before ++ ((b, m) ∷ behind))
    → Placed (before ++ ((b, m) ∷ behind))
    → Allotted h b m rs
Allotted-Used h b m rs [] behind u p = record {
  ne_null = p.0;
  bound = p.1;
  size = u.0;
  sane = u.1;
  apart = u.2;
}
Allotted-Used h b m rs ((c, k) ∷ before) behind u p = Allotted-Used h b m rs before behind u.4 p.2

pub Placed-remove :
    (b m : ℕ) (before behind : List (ℕ × ℕ))
    → Placed (before ++ ((b, m) ∷ behind))
    → Placed (before ++ behind)
Placed-remove b m [] behind p = p.2
Placed-remove b m ((c, k) ∷ before) behind p = (p.0, p.1, Placed-remove b m before behind p.2)

pub Clear-remove :
    (c k b m : ℕ) (before behind : List (ℕ × ℕ))
    → Clear c k (before ++ ((b, m) ∷ behind))
    → ((c + 16 + k ≤ b) ⊎ (b + 16 + m ≤ c)) × Clear c k (before ++ behind)
Clear-remove c k b m [] behind cl = cl
Clear-remove c k b m ((a, n) ∷ before) behind cl =
    let (away, rest) = Clear-remove c k b m before behind cl.1 in (away, (cl.0, rest))

-- A block keeps its header and is apart from the free blocks.
abbrev pub Stays : (h h' : Heap) → List (ℕ × ℕ) → (c k : ℕ) → Type 0
Stays h h' rs c k =
    ((h'.header c).size ≡ (h.header c).size)
    × ((h'.header c).sanity_check ≡ (h.header c).sanity_check)
    × Clear c k rs

module _ (h h' : Heap) (b m : ℕ) (rs rs' : List (ℕ × ℕ))
    (stays : (c k : ℕ)
      → Clear c k rs
      → (c + 16 + k ≤ b) ⊎ (b + 16 + m ≤ c)
      → Stays h h' rs' c k) where
  Used-behind : (us : List (ℕ × ℕ)) → Clear b m us → Used h rs us → Used h' rs' us
  Used-behind [] cl u = tt
  Used-behind ((c, k) ∷ us) cl u =
      let (size, sane, clear) = stays c k u.2 (omega (arith, cl.0)) in
      (size ∙ u.0, sane ∙ u.1, clear, u.3, Used-behind us cl.1 u.4)

  pub Used-remove :
      (before behind : List (ℕ × ℕ))
      → Used h rs (before ++ ((b, m) ∷ behind))
      → Used h' rs' (before ++ behind)
  Used-remove [] behind u = Used-behind behind u.3 u.4
  Used-remove ((c, k) ∷ before) behind u =
      let (away, cl) = Clear-remove c k b m before behind u.3 in
      let (size, sane, clear) = stays c k u.2 away in
      (size ∙ u.0, sane ∙ u.1, clear, cl, Used-remove before behind u.4)
