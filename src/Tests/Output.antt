-- ===== src/Tests/Output.antt =====
-- The screen of c/kprintf.c at concrete states.
use cs415_a.Base.{
  ℕ, ◌+◌, ◌-◌, ◌*◌, ◌≡◌, refl, arith, [], Returns, leb, ltb, ◌&&◌, if◌then◌else◌, true, ◌>>=◌,
}
use cs415_a.Console.{Screen, Display, kbmputc, cga_buf, cga_base}
use cs415_a.Console.Text.{Shown, Copies, text, text_scrolled, written}
use cs415_a.Console.Print.{kbmputc-Shown, Points}
use cs415_a.Console.Tab.{kbmputc-tabulates, blanked}
use cs415_a.Console.Underrun.{kbmputc-underruns}

abbrev move_bytes : (dst src count : ℕ) → (ℕ → ℕ) → ℕ → ℕ
move_bytes dst src count m x = if leb dst x && ltb x (dst + count) then m (src + (x - dst)) else m x

move_bytes-Copies : Copies move_bytes
move_bytes-Copies dst src count m x d s = refl

abbrev display : Display
display = record { colour = true; cursor_high = 0; cursor_low = 0 }

-- A screen full of dots, with the next place given.
abbrev screen : (i : ℕ) → Screen
screen i = record {
  buf = cga_buf;
  addr_6845 = cga_base;
  crtat = cga_buf + 2 * i;
  cell = λ x. 46;
  ports = [];
}

-- The last place: the text moves up.
kbmputc-Shown_example :
    Returns
      (λ s'.
        Shown (screen 1999) 1920 (text_scrolled 2000 (written (text (screen 1999)) 1999 97)) s'
        × Points s' 1920)
      (kbmputc move_bytes display (screen 1999) 97)
kbmputc-Shown_example =
    kbmputc-Shown move_bytes move_bytes-Copies display (screen 1999) 1999 97
      (record { low = omega arith; mapped = omega arith; here = refl }) (omega arith) (omega arith)
      (omega arith) (λ e. omega arith)

-- The last line: its last tabulator stop is below it.
kbmputc-tabulates_example :
    Returns
      (Shown (screen 1997) 1920 (text_scrolled 2000 (blanked (text (screen 1997)) 1997 3)))
      (kbmputc move_bytes display (screen 1997) b'\t')
kbmputc-tabulates_example =
    kbmputc-tabulates move_bytes move_bytes-Copies display (screen 1997) 1997
      (record { low = omega arith; mapped = omega arith; here = refl }) (omega arith) refl

kbmputc-underruns_example :
    Returns
      (λ s2. s2.cell (cga_buf - 2) ≡ 97)
      (kbmputc move_bytes display (screen 0) 8 >>= λ s1. kbmputc move_bytes display s1 97)
kbmputc-underruns_example =
    kbmputc-underruns move_bytes display (screen 0) 97
      (record { low = omega arith; mapped = omega arith; here = refl }) (omega arith) refl
      (omega arith) (omega arith)
