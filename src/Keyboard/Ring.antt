-- ===== src/Keyboard/Ring.antt =====
-- The circular buffer of c/kbd.c as the list of its characters.
use cs415_a.Base.{
  length, Bool-cases, inl, inr, if◌then◌else◌, ℕ, zero, suc, ◌+◌, ◌-◌, ◌%◌, ◌^◌, ◌<◌, ◌≤◌, ◌≡◌, ◌∙◌,
  refl, ap, arith, true, false, ltb, ◌==◌, ==_refl, ==_ne, none, some, List, [], ◌∷◌, ◌++◌, update,
  sym,
}
use cs415_a.Keyboard.Driver.{Driver, insert_char, remove_char}

-- `n` characters from the index `h` on.
abbrev pub ring : (n h : ℕ) → (ℕ → ℕ) → List ℕ
ring zero h buf = []
ring (suc n) h buf = buf (h % 4) ∷ ring n (h + 1) buf

-- The characters of the buffer, the oldest first.
abbrev pub contents : Driver → List ℕ
contents d = ring d.size d.head d.kb_buf

pub record IsRing (d : Driver) : Type 0 where
  pub head : d.head < 4
  pub size : d.size ≤ 4

ring_shift : (n h h' : ℕ) (buf : ℕ → ℕ) → h % 4 ≡ h' % 4 → ring n h buf ≡ ring n h' buf
ring_shift zero h h' buf e = refl
ring_shift (suc n) h h' buf e = λ i. buf (e i) ∷ ring_shift n (h + 1) (h' + 1) buf (omega arith) i

-- A write behind the characters appends to them.
ring_append :
    (n h w c : ℕ) (buf : ℕ → ℕ)
    → n < 4
    → w ≡ (h + n) % 4
    → ring (suc n) h (update buf w c) ≡ ring n h buf ++ (c ∷ [])
ring_append zero h w c buf lt e = let here : w ≡ h % 4 = omega arith in rw (here, ==_refl (h % 4))
ring_append (suc n) h w c buf lt e =
    let other : (w == h % 4) ≡ false = ==_ne w (h % 4) (omega arith) in
    let rest = ring_append n (h + 1) w c buf (omega arith) (omega arith) in
    rw other (ap (λ l. buf (h % 4) ∷ l) rest)

length-ring : (n h : ℕ) (buf : ℕ → ℕ) → length (ring n h buf) ≡ n
length-ring zero h buf = refl
length-ring (suc n) h buf = omega (arith, length-ring n (h + 1) buf)

-- A queue of at most 4 characters: what it answers to one more, and what it holds then.
abbrev pub enqueue : ℕ → List ℕ → ℕ × List ℕ
enqueue c cs = if ltb (length cs) 4 then (0, cs ++ (c ∷ [])) else (2 ^ 32 - 1, cs)

-- The head of the buffer is an index, and the size within bounds. Then `insert_char` answers as a
-- queue of at most 4 characters and holds what that holds: with fewer than 4 characters it answers 0
-- and appends the character, and with 4 it answers -1 and holds the same; the head is an index and
-- the size within bounds again.
pub insert_char-enqueue :
    (d : Driver) (c : ℕ)
    → IsRing d
    → (((insert_char d c).0, contents (insert_char d c).1) ≡ enqueue c (contents d))
      × IsRing (insert_char d c).1
unfolding insert_char
insert_char-enqueue d c v =
    let size : length (contents d) ≡ d.size = length-ring d.size d.head d.kb_buf in
    elim (Bool-cases (ltb d.size 4)) [
      | inl room ↦
          let lt : d.size < 4 = ground (arith, room) in
          let e : d.size + 1 ≡ suc d.size = omega arith in
          let joined : ring (d.size + 1) d.head (update d.kb_buf ((d.head + d.size) % 4) c)
              ≡ contents d ++ (c ∷ []) =
            rw e (ring_append d.size d.head ((d.head + d.size) % 4) c d.kb_buf lt refl) in
          rw (size, room) (ap (λ cs. (0, cs)) joined, record { head = v.head; size = omega arith })
      | inr full ↦ rw (size, full) (refl, v)
    ]

ring-suc :
    (n h : ℕ) (buf : ℕ → ℕ) → 0 < n → h < 4 → ring n h buf ≡ buf h ∷ ring (n - 1) ((h + 1) % 4) buf
ring-suc zero h buf pos lt = absurd (omega arith)
ring-suc (suc n) h buf pos lt =
    let first : h % 4 ≡ h = omega arith in
    let rest : suc n - 1 ≡ n = omega arith in
    let shift : ring (suc n - 1) ((h + 1) % 4) buf ≡ ring n (h + 1) buf =
      rw rest (ring_shift n ((h + 1) % 4) (h + 1) buf (omega arith)) in
    λ i. buf (first i) ∷ sym shift i

-- The buffer without its oldest character.
abbrev pub advance : Driver → Driver
advance d = record d { head = (d.head + 1) % 4; size = d.size - 1 }

-- The head is an index, the size is within bounds, and the buffer holds `c` and then `cs`. Then
-- `remove_char` returns `c` and changes head and size only; the buffer holds `cs`, with the head an
-- index and the size within bounds.
pub remove_char-pops :
    (d : Driver) (c : ℕ) (cs : List ℕ)
    → IsRing d
    → contents d ≡ c ∷ cs
    → (remove_char d ≡ (some c, advance d)) × (contents (advance d) ≡ cs) × IsRing (advance d)
unfolding remove_char
remove_char-pops d c cs v e =
    let pos : 0 < d.size = nonempty d.size e in
    let some_left : ltb 0 d.size ≡ true = ground arith in
    let both : d.kb_buf d.head ∷ contents (advance d) ≡ c ∷ cs =
      sym (ring-suc d.size d.head d.kb_buf pos v.head) ∙ e in
    let first : d.kb_buf d.head ≡ c = cc both in
    (rw (some_left, first), cc both, record { head = omega arith; size = omega (arith, v.size) })
  where
    nonempty : (n : ℕ) → ring n d.head d.kb_buf ≡ c ∷ cs → 0 < n
    nonempty zero f = cc
    nonempty (suc n) f = omega arith

pub remove_char_empty : (d : Driver) → contents d ≡ [] → remove_char d ≡ (none, d)
unfolding remove_char
remove_char_empty d e =
    let zero_size : d.size ≡ 0 = empty d.size e in
    let none_left : ltb 0 d.size ≡ false = ground arith in rw none_left
  where
    empty : (n : ℕ) → ring n d.head d.kb_buf ≡ [] → n ≡ 0
    empty zero f = refl
    empty (suc n) f = cc
