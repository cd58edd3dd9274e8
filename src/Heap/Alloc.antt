-- ===== src/Heap/Alloc.antt =====
-- `kmalloc` of c/mem.c on the list of the free blocks.
use mathlib.Core.Path.{subst}
use cs415_a.Base.{
  ℕ, zero, suc, ◌+◌, ◌-◌, ◌<◌, ◌≤◌, ◌^◌, ◌≡◌, ◌≢◌, ◌∙◌, refl, sym, ltb, Option, none, some, List,
  [], ◌∷◌, length, arith, ok, inl, inr, Bool-cases, ◌⊎◌,
}
use cs415_a.Heap.{Heap, take_node, find_fit}
use cs415_a.Heap.FreeList.{Linked, Sorted, first_fit, link, Clear}
use cs415_a.Heap.Took.{Took, Took-split, Took-whole, Claimed, Claimed-take_node, Took-behind}

-- The result of the search for first fit, and what taking the block it finds does.
pub record Fit (fuel : ℕ) (h : Heap) (prev lo node amount : ℕ) (rs : List (ℕ × ℕ)) (a : ℕ)
    (rest : List (ℕ × ℕ)) : Type 0 where
  pub n : ℕ
  pub found : find_fit fuel h node amount ≡ ok a
  pub ne_null : a ≢ 0
  pub above : lo ≤ a
  pub bound : a + 16 + n < 2 ^ 31
  pub sorted : Sorted lo rest
  pub took : Took h (take_node h a amount).1 prev lo rest
  pub claimed : Claimed h (take_node h a amount).1 a n amount
  pub clear : (b m : ℕ) → Clear b m rs → (b + 16 + m ≤ a) ⊎ (a + 16 + n ≤ b)
  pub clear_rest : (b m : ℕ) → Clear b m rs → Clear b m rest
  pub apart : Clear a amount rest

abbrev pub FitOf :
    ℕ → Heap → (prev lo node amount : ℕ) → List (ℕ × ℕ) → Option (ℕ × List (ℕ × ℕ)) → Type 0
FitOf fuel h prev lo node amount rs none = find_fit fuel h node amount ≡ ok 0
FitOf fuel h prev lo node amount rs (some (a, rest)) = Fit fuel h prev lo node amount rs a rest

pub Sorted-lower : (lo hi : ℕ) (rs : List (ℕ × ℕ)) → lo ≤ hi → Sorted hi rs → Sorted lo rs
Sorted-lower lo hi [] le s = tt
Sorted-lower lo hi ((a, n) ∷ rs) le s = (omega (arith, s.0), s.1, s.2)

-- A list above a block is clear of it.
Clear-Sorted : (b m lo : ℕ) (rs : List (ℕ × ℕ)) → b + 16 + m ≤ lo → Sorted lo rs → Clear b m rs
Clear-Sorted b m lo [] le s = tt
Clear-Sorted b m lo ((a, n) ∷ rs) le s =
    (inl (omega (arith, s.0)), Clear-Sorted b m (a + 16 + n) rs (omega (arith, s.0)) s.2)

find_fit_next :
    (fuel : ℕ) (h : Heap) (node amount : ℕ)
    → node ≢ 0
    → (h.header node).size < amount
    → find_fit (suc fuel) h node amount ≡ find_fit fuel h (h.header node).next amount
unfolding find_fit
find_fit_next fuel h node amount ne lt = ground arith

find_fit_here :
    (fuel : ℕ) (h : Heap) (node amount : ℕ)
    → amount ≤ (h.header node).size
    → find_fit (suc fuel) h node amount ≡ ok node
unfolding find_fit
find_fit_here fuel h node amount le = ground arith

find_fit_end : (fuel : ℕ) (h : Heap) (amount : ℕ) → find_fit (suc fuel) h 0 amount ≡ ok 0
unfolding find_fit
find_fit_end fuel h amount = refl

module _ (fuel : ℕ) (h : Heap) (prev lo a n amount : ℕ) (rs : List (ℕ × ℕ))
    (l : Linked h prev a ((a, n) ∷ rs)) (e : link h prev ≡ a) (s : Sorted lo ((a, n) ∷ rs))
    (lt : prev < lo) where
  Fit-split :
      amount + 16 < n
      → Fit (suc fuel) h prev lo a amount ((a, n) ∷ rs) a ((a + 16 + amount, n - amount - 16) ∷ rs)
  Fit-split big =
      let enough : amount ≤ n = omega arith in
      let exact : a + 16 + amount + 16 + (n - amount - 16) ≡ a + 16 + n = omega arith in
      record {
        n = n;
        found = find_fit_here fuel h a amount (omega (arith, l.2));
        ne_null = l.1;
        above = s.0;
        bound = s.1;
        sorted = (omega (arith, s.0), omega (arith, s.1), rw exact s.2);
        took = Took-split h prev lo a n amount rs l.1 l.2 l.3 l.4 s.0 s.1 s.2 lt big;
        claimed = Claimed-take_node h prev lo a n amount rs l.2 l.3 l.4 s.0 s.1 s.2 lt enough;
        clear = λ b m c. c.0;
        clear_rest = λ b m c. (omega (arith, c.0), c.1);
        apart = (inl (omega arith), Clear-Sorted a amount (a + 16 + n) rs (omega arith) s.2);
      }

  Fit-whole : amount ≤ n → n ≤ amount + 16 → Fit (suc fuel) h prev lo a amount ((a, n) ∷ rs) a rs
  Fit-whole enough tight = record {
    n = n;
    found = find_fit_here fuel h a amount (omega (arith, l.2));
    ne_null = l.1;
    above = s.0;
    bound = s.1;
    sorted = Sorted-lower lo (a + 16 + n) rs (omega (arith, s.0)) s.2;
    took = Took-whole h prev lo a n amount rs l.1 l.2 l.3 l.4 s.0 s.1 s.2 lt enough tight;
    claimed = Claimed-take_node h prev lo a n amount rs l.2 l.3 l.4 s.0 s.1 s.2 lt enough;
    clear = λ b m c. c.0;
    clear_rest = λ b m c. c.1;
    apart = Clear-Sorted a amount (a + 16 + n) rs (omega arith) s.2;
  }

  -- The block is too small.
  FitOf-behind :
      (o : Option (ℕ × List (ℕ × ℕ)))
      → n < amount
      → FitOf fuel h a (a + 16 + n) (h.header a).next amount rs o
      → FitOf
          (suc fuel)
          h
          prev
          lo
          a
          amount
          ((a, n) ∷ rs)
          (elim o [ none ↦ none | some (b, rest) ↦ some (b, (a, n) ∷ rest) ])
  FitOf-behind none small f = find_fit_next fuel h a amount l.1 (omega (arith, l.2)) ∙ f
  FitOf-behind (some (b, rest)) small f = record {
    n = f.n;
    found = find_fit_next fuel h a amount l.1 (omega (arith, l.2)) ∙ f.found;
    ne_null = f.ne_null;
    above = omega (arith, f.above, s.0);
    bound = f.bound;
    sorted = (s.0, s.1, f.sorted);
    took = Took-behind h (take_node h b amount).1 prev lo a n rest e l.1 l.2 l.3 s.0 lt f.took;
    claimed = f.claimed;
    clear = λ c m p. f.clear c m p.1;
    clear_rest = λ c m p. (p.0, f.clear_rest c m p.1);
    apart = (inr (omega (arith, f.above)), f.apart);
  }

-- The search finds the first block that fits, if there is one.
pub FitOf-first_fit :
    (fuel : ℕ) (h : Heap) (prev lo node amount : ℕ) (rs : List (ℕ × ℕ))
    → Linked h prev node rs
    → link h prev ≡ node
    → Sorted lo rs
    → prev < lo
    → length rs < fuel
    → FitOf fuel h prev lo node amount rs (first_fit amount rs)
FitOf-first_fit zero h prev lo node amount rs l e s lt f = absurd (omega arith)
FitOf-first_fit (suc fuel) h prev lo node amount [] l e s lt f = rw l (find_fit_end fuel h amount)
FitOf-first_fit (suc fuel) h prev lo node amount ((a, n) ∷ rs) l e s lt f =
    subst (λ x. FitOf (suc fuel) h prev lo x amount ((a, n) ∷ rs) (first_fit amount ((a, n) ∷ rs)))
      (sym l.0)
      (let l' : Linked h prev a ((a, n) ∷ rs) = (refl, l.1, l.2, l.3, l.4) in
        let e' : link h prev ≡ a = e ∙ l.0 in
        elim (Bool-cases (ltb n amount)) [
          | inl small ↦ rw small (
              FitOf-behind fuel h prev lo a n amount rs l' e' s lt (first_fit amount rs)
                (ground arith)
                (FitOf-first_fit fuel h a (a + 16 + n) (h.header a).next amount rs l.4
                  (ground (arith, l.1)) s.2 (omega arith) (omega arith)))
          | inr enough ↦ elim (Bool-cases (ltb (amount + 16) n)) [
            | inl big ↦
                rw (enough, big) (Fit-split fuel h prev lo a n amount rs l' e' s lt (ground arith))
            | inr tight ↦
                rw (enough, tight)
                  (Fit-whole fuel h prev lo a n amount rs l' e' s lt (ground arith) (ground arith))
          ]
        ])
