-- ===== src/Console/Underrun.antt =====
-- A backspace at the first place of the screen of c/kprintf.c.
use cs415_a.Base.{ℕ, ◌-◌, ◌<◌, ◌^◌, ◌≡◌, ◌≢◌, ◌∙◌, ap, sym, false, arith, Returns, ◌>>=◌}
use cs415_a.Console.{Screen, Display, put, settle, kbmputc, scroll, cursor}
use cs415_a.Console.Print.{kbmputc_known}
use cs415_a.Console.Text.{control, At}

module _ (blkcopy : (dst src count : ℕ) → (ℕ → ℕ) → ℕ → ℕ) where
  back_crtat : (s : Screen) → At s 0 → 1 < s.buf → (settle blkcopy (put s 8)).crtat ≡ s.buf - 2
  unfolding put settle scroll cursor
  back_crtat s a above = ground (arith, a.low, a.here)

  below_cell :
      (s : Screen) (c : ℕ)
      → control c ≡ false
      → 0 < s.crtat
      → s.crtat < s.buf
      → s.buf < 2 ^ 20
      → (settle blkcopy (put s c)).cell s.crtat ≡ c
  unfolding put settle scroll cursor
  below_cell s c plain known below low = ground arith

  -- The display is known, its memory lies from address 3 on and below 2 ^ 20, and the next place is
  -- the first of the screen. A backspace returns, and a character that is no control character, not
  -- 0 and no tabulator, is then stored two bytes below the screen.
  pub kbmputc-underruns :
      (d : Display) (s : Screen) (c : ℕ)
      → At s 0
      → 2 < s.buf
      → control c ≡ false
      → c ≢ 0
      → c ≢ b'\t'
      → Returns
          (λ s2. s2.cell (s.buf - 2) ≡ c)
          (kbmputc blkcopy d s 8 >>= λ s1. kbmputc blkcopy d s1 c)
  unfolding put settle scroll cursor
  kbmputc-underruns d s c a above plain ne tab =
      let s1 = settle blkcopy (put s 8) in
      let here = back_crtat s a (omega arith) in
      let same : s1.buf ≡ s.buf = ground arith in
      (
        settle blkcopy (put s1 c),
        rw (kbmputc_known blkcopy d s 8 (omega (arith, a.here)) (omega arith) (omega arith))
            (kbmputc_known blkcopy d s1 c (omega (arith, here)) ne tab),
        ap (settle blkcopy (put s1 c)).cell (sym here)
            ∙ below_cell s1 c plain (omega (arith, here)) (omega (arith, here, same))
                (omega (arith, same, a.low)),
      )
