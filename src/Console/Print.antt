-- ===== src/Console/Print.antt =====
-- `kbmputc` of c/kprintf.c on the text of the screen.
use mathlib.Core.Path.{subst}
use cs415_a.Base.{ℕ, ◌+◌, ◌/◌, ◌%◌, ◌<◌, ◌≡◌, ◌≢◌, ◌∙◌, refl, ==_ne, List, ◌∷◌, arith, ok, Returns}
use cs415_a.Base.Word.{sub32}
use cs415_a.Console.{Screen, Display, put, settle, kbmputc, kbmputc_found, div_int, scroll, cursor}
use cs415_a.Console.Text.{
  text, place, written, place_scrolled, text_scrolled, At, Shown, put-Shown, settle-Shown, Copies,
}

-- The cursor of the display is at the `i`-th place.
abbrev pub Points : Screen → ℕ → Type 0
Points s i =
    (ps : List (ℕ × ℕ)) × (s.ports
      ≡ (s.addr_6845 + 1, i % 256)
        ∷ (s.addr_6845, 15)
        ∷ (s.addr_6845 + 1, i / 256 % 256)
        ∷ (s.addr_6845, 14)
        ∷ ps)

pub Shown-trans :
    (s s1 s2 : Screen) (i1 i2 : ℕ) (t1 t2 : ℕ → ℕ)
    → Shown s i1 t1 s1
    → Shown s1 i2 t2 s2
    → (t : ℕ → ℕ) → ((j : ℕ) → j < 2000 → t2 j ≡ t j)
    → Shown s i2 t s2
Shown-trans s s1 s2 i1 i2 t1 t2 a b t e = record {
  buf = b.buf ∙ a.buf;
  at = b.at;
  shows = λ j lt. b.shows j lt ∙ e j lt;
  outside = λ x away. b.outside x (rw a.buf away) ∙ a.outside x away;
}

pub Shown-as :
    (s s' : Screen) (i i' : ℕ) (t t' : ℕ → ℕ)
    → Shown s i t s'
    → i ≡ i'
    → ((j : ℕ) → j < 2000 → t j ≡ t' j)
    → Shown s i' t' s'
Shown-as s s' i i' t t' a same e = record {
  buf = a.buf;
  at = subst (At s') same a.at;
  shows = λ j lt. a.shows j lt ∙ e j lt;
  outside = a.outside;
}

module _ (blkcopy : (dst src count : ℕ) → (ℕ → ℕ) → ℕ → ℕ) where
  pub kbmputc_known :
      (d : Display) (s : Screen) (c : ℕ)
      → 0 < s.crtat
      → c ≢ 0
      → c ≢ b'\t'
      → kbmputc blkcopy d s c ≡ ok (settle blkcopy (put s c))
  unfolding kbmputc kbmputc_found
  kbmputc_known d s c known ne tab =
      rw (==_ne c 0 ne, ==_ne s.crtat 0 (omega arith), ==_ne c b'\t' tab) refl

module _ (blkcopy : (dst src count : ℕ) → (ℕ → ℕ) → ℕ → ℕ) (copies : Copies blkcopy) where
  settle-Points :
      (s : Screen) (i : ℕ) → At s i → i < 2080 → Points (settle blkcopy s) (place_scrolled i)
  unfolding settle cursor scroll
  settle-Points s i a lt =
      let pos : div_int (sub32 (scroll blkcopy s).crtat (scroll blkcopy s).buf) 2
          ≡ place_scrolled i =
        ground (arith, a.low, a.here) in
      ((scroll blkcopy s).ports, rw pos refl)

  pub settle-put-Shown :
      (s : Screen) (i c : ℕ)
      → At s i
      → i < 2000
      → ((c ≡ 8) → 0 < i)
      → Shown s
          (place_scrolled (place i c))
          (text_scrolled (place i c) (written (text s) i c))
          (settle blkcopy (put s c))
  settle-put-Shown s i c a lt back =
      let p = put-Shown s i c a lt back in
      let q = settle-Shown blkcopy copies (put s c) (place i c) p.at (ground arith) in
      Shown-trans s (put s c) (settle blkcopy (put s c)) (place i c) (place_scrolled (place i c))
        (written (text s) i c) (text_scrolled (place i c) (text (put s c))) p q
        (text_scrolled (place i c) (written (text s) i c))
        (λ j j_lt. ground (arith, p.shows j, p.shows (j + 80)))

  -- The display is known, its memory lies below 2 ^ 20, and the next place on the screen is the
  -- `i`-th of 2000. The character is neither 0 nor a tabulator, and no backspace at the first place.
  -- Then `kbmputc` returns. The text is the old one with the character at this place, if it is no
  -- control character; the next place is the one behind, before, or at the start of a line; if that
  -- is below the last line, the text moves up by a line and an empty one follows. The display's
  -- cursor is at the next place, and the memory outside the screen is as it was.
  pub kbmputc-Shown :
      (d : Display) (s : Screen) (i c : ℕ)
      → At s i
      → i < 2000
      → c ≢ 0
      → c ≢ b'\t'
      → ((c ≡ 8) → 0 < i)
      → Returns
          (λ s'.
            Shown s
              (place_scrolled (place i c))
              (text_scrolled (place i c) (written (text s) i c))
              s'
            × Points s' (place_scrolled (place i c)))
          (kbmputc blkcopy d s c)
  kbmputc-Shown d s i c a lt ne tab back =
      let p = put-Shown s i c a lt back in
      (
        settle blkcopy (put s c),
        kbmputc_known blkcopy d s c (omega (arith, a.here, a.mapped)) ne tab,
        (settle-put-Shown s i c a lt back, settle-Points (put s c) (place i c) p.at (ground arith)),
      )
