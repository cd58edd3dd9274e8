-- ===== src/Console/Tab.antt =====
-- The tabulator of `kbmputc` of c/kprintf.c.
use cs415_a.Base.{
  ℕ, zero, suc, ◌+◌, ◌-◌, ◌*◌, ◌/◌, ◌%◌, ◌<◌, ◌≡◌, ◌∙◌, refl, ap, ltb, leb, ◌==◌, ◌!=◌, ◌&&◌, ==_ne,
  if◌then◌else◌, arith, Returns, true, false,
}
use cs415_a.Console.{Screen, Display, put, settle, kbmputc, kbmputc_found, blank, tabulate, rem_int}
use cs415_a.Console.Text.{
  text, written, place_scrolled, text_scrolled, At, Shown, settle-Shown, Copies,
}
use cs415_a.Console.Print.{Shown-as, Shown-trans, settle-put-Shown}

-- The text with blanks from the `i`-th place on, `n` of them.
abbrev pub blanked : (ℕ → ℕ) → (i n : ℕ) → (j : ℕ) → ℕ
blanked t i n j = if leb i j && ltb j (i + n) then blank else t j

blanked_lem : (t : ℕ → ℕ) (i j : ℕ) → written t i blank j ≡ blanked t i 1 j
blanked_lem t i j = ground arith

blanked_next :
    (t t1 : ℕ → ℕ) (i n j : ℕ)
    → t1 j ≡ written t i blank j
    → blanked t1 (i + 1) (suc n) j ≡ blanked t i (suc (suc n)) j
blanked_next t t1 i n j e = ground arith

place_scrolled_lt : (i : ℕ) → i < 2080 → place_scrolled i < 2000
place_scrolled_lt i lt = ground arith

-- A place on the screen stays where it is.
place_scrolled_again : (p : ℕ) → p < 2000 → place_scrolled p ≡ p
place_scrolled_again p lt = ground arith

text_scrolled_again : (p j : ℕ) (t : ℕ → ℕ) → p < 2000 → text_scrolled p t j ≡ t j
text_scrolled_again p j t lt = ground arith

-- Only places of the screen count.
text_scrolled_cong :
    (i j : ℕ) (t t' : ℕ → ℕ)
    → ((m : ℕ) → m < 2000 → t m ≡ t' m)
    → j < 2000
    → text_scrolled i t j ≡ text_scrolled i t' j
text_scrolled_cong i j t t' e lt = ground (arith, e j, e (j + 80))

module _ (blkcopy : (dst src count : ℕ) → (ℕ → ℕ) → ℕ → ℕ) (copies : Copies blkcopy) where
  abbrev step : Screen → Screen
  step s = settle blkcopy (put s blank)

  stop_lem :
      (s : Screen) (i : ℕ)
      → At s i
      → s.buf % 16 ≡ 0
      → i < 2080
      → (rem_int s.crtat 16 != 0) ≡ (i % 8 != 0)
  stop_lem s i a stops lt = ground (arith, a.low, a.here)

  tabulate-Shown :
      (n fuel : ℕ) (s : Screen) (i : ℕ)
      → At s i
      → i < 2000
      → s.buf % 16 ≡ 0
      → i % 8 + suc n ≡ 8
      → n < fuel
      → Returns
          (Shown s
            (place_scrolled (i + suc n))
            (text_scrolled (i + suc n) (blanked (text s) i (suc n))))
          (tabulate blkcopy fuel s)
  unfolding tabulate
  tabulate-Shown n zero s i a lt stops steps enough = absurd (omega arith)
  tabulate-Shown zero (suc fuel) s i a lt stops steps enough =
      let v = settle-put-Shown blkcopy copies s i blank a lt (λ e. absurd (omega (arith, e))) in
      let stop : (rem_int (step s).crtat 16 != 0) ≡ false =
        stop_lem (step s) (place_scrolled (i + 1)) v.at (rw v.buf stops) (ground arith)
        ∙ ground arith in
      (
        step s,
        rw stop refl,
        Shown-as s (step s) (place_scrolled (i + 1)) (place_scrolled (i + 1))
            (text_scrolled (i + 1) (written (text s) i blank))
            (text_scrolled (i + 1) (blanked (text s) i 1)) v refl
            (λ j.
              text_scrolled_cong (i + 1) j (written (text s) i blank) (blanked (text s) i 1)
                (λ m _. blanked_lem (text s) i m)),
      )
  tabulate-Shown (suc n) (suc fuel) s i a lt stops steps enough =
      let v = settle-put-Shown blkcopy copies s i blank a lt (λ e. absurd (omega (arith, e))) in
      let on : (rem_int (step s).crtat 16 != 0) ≡ true =
        stop_lem (step s) (place_scrolled (i + 1)) v.at (rw v.buf stops) (ground arith)
        ∙ ground arith in
      let small : i + 1 < 2000 = omega arith in
      let next : place_scrolled (i + 1) ≡ i + 1 = ground arith in
      let far : i + 1 + suc n ≡ i + suc (suc n) = omega arith in
      let (s2, run, shown) =
        tabulate-Shown n fuel (step s) (i + 1) (rw next at v.at) small (rw v.buf stops)
          (omega arith) (omega arith) in
      (
        s2,
        rw on run,
        Shown-as s s2 (place_scrolled (i + 1 + suc n)) (place_scrolled (i + suc (suc n)))
            (text_scrolled (i + 1 + suc n) (blanked (text (step s)) (i + 1) (suc n)))
            (text_scrolled (i + suc (suc n)) (blanked (text s) i (suc (suc n))))
            (Shown-trans s (step s) s2 (place_scrolled (i + 1)) (place_scrolled (i + 1 + suc n))
              (text_scrolled (i + 1) (written (text s) i blank))
              (text_scrolled (i + 1 + suc n) (blanked (text (step s)) (i + 1) (suc n))) v shown
              (text_scrolled (i + 1 + suc n) (blanked (text (step s)) (i + 1) (suc n)))
              (λ j j_lt. refl))
            (ap place_scrolled far)
            (λ j j_lt.
              ap (λ m. text_scrolled m (blanked (text (step s)) (i + 1) (suc n)) j) far
              ∙ text_scrolled_cong (i + suc (suc n)) j (blanked (text (step s)) (i + 1) (suc n))
                  (blanked (text s) i (suc (suc n)))
                  (λ m m_lt.
                    blanked_next (text s) (text (step s)) i n m (v.shows m m_lt ∙ ground arith))
                  j_lt),
      )

  -- The display is known, its memory starts at a multiple of 16 below 2 ^ 20, and the next place on
  -- the screen is the `i`-th of 2000. Then `kbmputc` of a tabulator returns after at most 8 blanks.
  -- They fill the line up to the next place whose number is a multiple of 8, which is the next place
  -- then; if that is below the last line, the text moves up by a line and an empty one follows. The
  -- memory outside the screen is as it was.
  pub kbmputc-tabulates :
      (d : Display) (s : Screen) (i : ℕ)
      → At s i
      → i < 2000
      → s.buf % 16 ≡ 0
      → Returns
          (Shown s
            (place_scrolled ((i / 8 + 1) * 8))
            (text_scrolled ((i / 8 + 1) * 8) (blanked (text s) i (8 - i % 8))))
          (kbmputc blkcopy d s b'\t')
  unfolding kbmputc kbmputc_found
  kbmputc-tabulates d s i a lt stops =
      let n = 7 - i % 8 in
      let stop : i + suc n ≡ (i / 8 + 1) * 8 = omega arith in
      let count : suc n ≡ 8 - i % 8 = omega arith in
      let (s1, run, shown) = tabulate-Shown n 8 s i a lt stops (omega arith) (omega arith) in
      let p = place_scrolled (i + suc n) in
      let p_lt : p < 2000 = place_scrolled_lt (i + suc n) (omega arith) in
      let last = settle-Shown blkcopy copies s1 p shown.at (omega arith) in
      let found : (s.crtat == 0) ≡ false = ==_ne s.crtat 0 (omega (arith, a.here, a.mapped)) in
      (
        settle blkcopy s1,
        rw (found, run) refl,
        Shown-as s (settle blkcopy s1) (place_scrolled p) (place_scrolled ((i / 8 + 1) * 8))
            (text_scrolled p (text s1))
            (text_scrolled ((i / 8 + 1) * 8) (blanked (text s) i (8 - i % 8)))
            (Shown-trans s s1 (settle blkcopy s1) p (place_scrolled p)
              (text_scrolled (i + suc n) (blanked (text s) i (suc n))) (text_scrolled p (text s1))
              shown last (text_scrolled p (text s1)) (λ j j_lt. refl))
            (place_scrolled_again p p_lt ∙ ap place_scrolled stop)
            (λ j j_lt.
              text_scrolled_again p j (text s1) p_lt
              ∙ shown.shows j j_lt
              ∙ (λ w. text_scrolled (stop w) (blanked (text s) i (count w)) j)),
      )
