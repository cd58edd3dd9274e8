-- ===== src/Console/Text.antt =====
-- The text on the screen of c/kprintf.c: 2000 characters, and the place of the next one.
use cs415_a.Base.{
  Bool, ℕ, zero, suc, ◌+◌, ◌-◌, ◌*◌, ◌/◌, ◌%◌, ◌<◌, ◌≤◌, ◌^◌, ◌≡◌, ◌⊎◌, ◌∙◌, refl, ap, ltb, leb,
  ◌==◌, ◌&&◌, ◌||◌, if◌then◌else◌, arith, update,
}
use cs415_a.Base.Word.{add32}
use cs415_a.Console.{Screen, put, settle, scroll, cursor, clear_line, blank}

abbrev pub text : Screen → (j : ℕ) → ℕ
text s j = s.cell (s.buf + 2 * j)

-- The place behind the character, which may be below the last line.
abbrev pub place : (i c : ℕ) → ℕ
place i c =
    if c == 8
    then i - 1
    else if c == b'\n'
    then (i / 80 + 1) * 80
    else if c == b'\r'
    then i / 80 * 80
    else i + 1

abbrev pub control : ℕ → Bool
control c = (c == 8) || (c == b'\n') || (c == b'\r')

abbrev pub written : (ℕ → ℕ) → (i c : ℕ) → (j : ℕ) → ℕ
written t i c j = if control c then t j else if j == i then c else t j

-- Below the last line, the text moves up by one line.
abbrev pub place_scrolled : ℕ → ℕ
place_scrolled i = if ltb i 2000 then i else i - 80

abbrev pub text_scrolled : ℕ → (ℕ → ℕ) → (j : ℕ) → ℕ
text_scrolled i t j = if ltb i 2000 then t j else if ltb j 1920 then t (j + 80) else blank

-- The screen lies in low memory, and the next place is the `i`-th.
pub record At (s : Screen) (i : ℕ) : Type 0 where
  pub low : s.buf < 2 ^ 20
  pub mapped : 0 < s.buf
  pub here : s.crtat ≡ s.buf + 2 * i

-- The memory outside the screen.
abbrev pub SameOutside : Screen → Screen → Type 0
SameOutside s s' = (x : ℕ) → (x < s.buf) ⊎ (s.buf + 4000 ≤ x) → s'.cell x ≡ s.cell x

pub record Shown (s : Screen) (i : ℕ) (t : ℕ → ℕ) (s' : Screen) : Type 0 where
  pub buf : s'.buf ≡ s.buf
  pub at : At s' i
  pub shows : (j : ℕ) → j < 2000 → text s' j ≡ t j
  pub outside : SameOutside s s'

pub put-Shown :
    (s : Screen) (i c : ℕ)
    → At s i
    → i < 2000
    → ((c ≡ 8) → 0 < i)
    → Shown s (place i c) (written (text s) i c) (put s c)
unfolding put
put-Shown s i c a lt back = record {
  buf = ground arith;
  at = record {
    low = ground (arith, a.low);
    mapped = ground (arith, a.mapped);
    here = ground (arith, a.low, a.here, back);
  };
  shows = λ j j_lt. ground (arith, a.low, a.here);
  outside = λ x away. ground (arith, a.low, a.here, away);
}

clear_line_lem :
    (rounds : ℕ) (m : ℕ → ℕ) (cp x : ℕ)
    → cp + 2 * rounds < 2 ^ 31
    → clear_line rounds m cp x
      ≡ (if leb cp x && ltb x (cp + 2 * rounds) && ((x - cp) % 2 == 0) then blank else m x)
unfolding clear_line
clear_line_lem zero m cp x h = ground arith
clear_line_lem (suc rounds) m cp x h =
    clear_line_lem rounds (update m cp blank) (add32 cp 2) x (omega arith) ∙ ground arith

cell-cursor : (s : Screen) (pos : ℕ) → (cursor s pos).cell ≡ s.cell
unfolding cursor
cell-cursor s pos = refl

-- The copying of the C library does what its comment says, in memory that lies below 2 ^ 31.
abbrev pub Copies : ((dst src count : ℕ) → (ℕ → ℕ) → ℕ → ℕ) → Type 0
Copies blkcopy =
    (dst src count : ℕ) (m : ℕ → ℕ) (x : ℕ)
    → dst + count < 2 ^ 31
    → src + count < 2 ^ 31
    → blkcopy dst src count m x
      ≡ (if leb dst x && ltb x (dst + count) then m (src + (x - dst)) else m x)

module _ (blkcopy : (dst src count : ℕ) → (ℕ → ℕ) → ℕ → ℕ) (copies : Copies blkcopy) where
  -- The cells when the text has moved up and the last line is cleared.
  abbrev up : Screen → ℕ → ℕ
  up s = clear_line 80 (blkcopy s.buf (s.buf + 160) 3840 s.cell) (s.buf + 3840)

  up_lem :
      (s : Screen) (x : ℕ)
      → s.buf < 2 ^ 20
      → up s x ≡ (
          if leb (s.buf + 3840) x
            && ltb x (s.buf + 3840 + 2 * 80)
            && ((x - (s.buf + 3840)) % 2 == 0)
          then blank
          else if leb s.buf x && ltb x (s.buf + 3840)
          then s.cell (s.buf + 160 + (x - s.buf))
          else s.cell x)
  up_lem s x low =
      clear_line_lem 80 (blkcopy s.buf (s.buf + 160) 3840 s.cell) (s.buf + 3840) x (omega arith)
      ∙ rw (copies s.buf (s.buf + 160) 3840 s.cell x (omega arith) (omega arith)) refl

  up_row : (s : Screen) (j : ℕ) → s.buf < 2 ^ 20 → j < 1920 → up s (s.buf + 2 * j) ≡ text s (j + 80)
  up_row s j low lt =
      let e : s.buf + 160 + (s.buf + 2 * j - s.buf) ≡ s.buf + 2 * (j + 80) = omega arith in
      up_lem s (s.buf + 2 * j) low ∙ ground (arith, ap s.cell e)

  up_last :
      (s : Screen) (j : ℕ) → s.buf < 2 ^ 20 → 1920 ≤ j → j < 2000 → up s (s.buf + 2 * j) ≡ blank
  up_last s j low ge lt = up_lem s (s.buf + 2 * j) low ∙ ground arith

  up_outside :
      (s : Screen) (x : ℕ) → s.buf < 2 ^ 20 → (x < s.buf) ⊎ (s.buf + 4000 ≤ x) → up s x ≡ s.cell x
  up_outside s x low away = up_lem s x low ∙ ground (arith, away)

  cell_settle :
      (s : Screen) (i : ℕ)
      → At s i
      → i < 2080
      → (x : ℕ) → (settle blkcopy s).cell x ≡ (if ltb i 2000 then s.cell x else up s x)
  unfolding settle scroll cursor
  cell_settle s i a lt x = ground (arith, a.low, a.here)

  pub settle-Shown :
      (s : Screen) (i : ℕ)
      → At s i
      → i < 2080
      → Shown s (place_scrolled i) (text_scrolled i (text s)) (settle blkcopy s)
  unfolding settle scroll cursor
  settle-Shown s i a lt =
      let same : (settle blkcopy s).buf ≡ s.buf = ground arith in
      record {
        buf = same;
        at = record {
          low = ground (arith, a.low);
          mapped = ground (arith, a.mapped);
          here = ground (arith, a.low, a.here);
        };
        shows = λ j j_lt.
            ap (λ b. (settle blkcopy s).cell (b + 2 * j)) same
            ∙ cell_settle s i a lt (s.buf + 2 * j)
            ∙ ground (arith, up_row s j a.low, up_last s j a.low);
        outside = λ x away. cell_settle s i a lt x ∙ ground (arith, up_outside s x a.low away);
      }
