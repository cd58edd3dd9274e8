-- ===== src/Console.antt =====
-- `kbmputc` of c/kprintf.c: the screen, as its video memory and the place of the next character.
pub mod Text
pub mod Print
pub mod Tab
pub mod Underrun
use Prim.Native.Nat.{bit_or}
use cs415_a.Base.{
  ℕ, zero, suc, ◌+◌, ◌-◌, ◌*◌, ◌/◌, ◌%◌, ◌^◌, Bool, ltb, not, ◌==◌, ◌!=◌, if◌then◌else◌, List, ◌∷◌,
  update, Run, ok, out_of_fuel, ◌>>=◌,
}
use cs415_a.Base.Word.{add32, sub32, minus, lt_int}

abbrev pub row_bytes : ℕ
row_bytes = 160

abbrev pub screen_bytes : ℕ
screen_bytes = 4000

abbrev pub text_bytes : ℕ
text_bytes = 3840

abbrev pub cga_buf : ℕ
cga_buf = 0xb8000

abbrev pub mono_buf : ℕ
mono_buf = 0xb0000

abbrev pub cga_base : ℕ
cga_base = 0x3d4

abbrev pub mono_base : ℕ
mono_base = 0x3b4

abbrev pub attribute : ℕ
attribute = 7

abbrev pub blank : ℕ
blank = 32

-- The static variables, the memory, and what was written to the ports, the last first.
pub record Screen : Type 0 where
  pub buf : ℕ
  pub addr_6845 : ℕ
  pub crtat : ℕ
  pub cell : ℕ → ℕ
  pub ports : List (ℕ × ℕ)

-- What the display answers: whether its colour memory keeps what is written there, and the two
-- bytes of the cursor's place.
pub record Display : Type 0 where
  pub colour : Bool
  pub cursor_high : ℕ
  pub cursor_low : ℕ

-- `a % m` on an `int`, which rounds to 0
abbrev pub rem_int : (a m : ℕ) → ℕ
rem_int a m = if lt_int a 0 then minus (minus a % m) else a % m

-- `a / m` on an `int`
abbrev pub div_int : (a m : ℕ) → ℕ
div_int a m = if lt_int a 0 then minus (minus a / m) else a / m

abbrev pub outb : (port value : ℕ) → Screen → Screen
outb port value s = record s { ports = (port, value) ∷ s.ports }

unfoldable pub cursor : Screen → (pos : ℕ) → Screen
cursor s pos =
    let s1 = outb s.addr_6845 14 s in
    let s2 = outb (s.addr_6845 + 1) (pos / 256 % 256) s1 in
    let s3 = outb s.addr_6845 15 s2 in outb (s.addr_6845 + 1) (pos % 256) s3

-- `for (; cp < end; cp += 2) { cp[0] = ' '; cp[1] = att; }`, for the rounds that it has
unfoldable pub clean : (rounds : ℕ) → (ℕ → ℕ) → (cp : ℕ) → ℕ → ℕ
clean zero m cp = m
clean (suc rounds) m cp =
    clean rounds (update (update m cp blank) (add32 cp 1) attribute) (add32 cp 2)

-- `for (…; cp += 2) cp[0] = ' ';`
unfoldable pub clear_line : (rounds : ℕ) → (ℕ → ℕ) → (cp : ℕ) → ℕ → ℕ
clear_line zero m cp = m
clear_line (suc rounds) m cp = clear_line rounds (update m cp blank) (add32 cp 2)

-- What was read from the colour memory goes back to where `Crtat` then points.
unfoldable pub to_mono : Screen → Screen
to_mono s = record s {
  buf = mono_buf;
  addr_6845 = mono_base;
  cell = update (update s.cell mono_buf (s.cell cga_buf)) (mono_buf + 1) (s.cell (cga_buf + 1));
}

-- The first call finds the display and its cursor, and cleans the screen from there on.
unfoldable pub find_display : Display → Screen → Screen
unfolding clean to_mono
find_display d s =
    let s1 = if d.colour then s else to_mono s in
    let s2 = outb s1.addr_6845 15 (outb s1.addr_6845 14 s1) in
    let cursorat = bit_or (d.cursor_high * 256) d.cursor_low in
    let start = if not (ltb 2000 cursorat) then s1.buf + cursorat * 2 else s1.buf in
    record s2 {
      crtat = start;
      cell = clean ((s1.buf + screen_bytes + 1 - start) / 2) s1.cell start;
    }

-- `crtat -= (crtat - Crtat) % (COL*CHR)`
abbrev pub line_start : Screen → Screen
line_start s = record s { crtat = sub32 s.crtat (rem_int (sub32 s.crtat s.buf) row_bytes) }

-- The cases of the switch but the tabulator.
unfoldable pub put : Screen → (c : ℕ) → Screen
put s c =
    if c == 8
    then record s { crtat = sub32 s.crtat 2 }
    else if c == b'\n'
    then line_start (record s { crtat = add32 s.crtat row_bytes })
    else if c == b'\r'
    then line_start s
    else record s {
      cell = update (update s.cell s.crtat c) (add32 s.crtat 1) attribute;
      crtat = add32 s.crtat 2;
    }

-- `blkcopy` of the C library is a parameter.
module _ (blkcopy : (dst src count : ℕ) → (ℕ → ℕ) → ℕ → ℕ) where
  -- `/* implement a scroll */`
  unfoldable pub scroll : Screen → Screen
  unfolding clear_line
  scroll s = if ltb s.crtat (s.buf + screen_bytes) then s else record s {
    cell = clear_line 80 (blkcopy s.buf (s.buf + row_bytes) text_bytes s.cell) (s.buf + text_bytes);
    crtat = sub32 s.crtat row_bytes;
  }

  -- What is behind the switch.
  unfoldable pub settle : Screen → Screen
  unfolding scroll cursor
  settle s = let s1 = scroll s in cursor s1 (div_int (sub32 s1.crtat s1.buf) 2)

  -- `do kbmputc(' '); while ((int)crtat % (8*CHR));`
  unfoldable pub tabulate : (fuel : ℕ) → Screen → Run Screen
  unfolding put settle
  tabulate zero s = out_of_fuel
  tabulate (suc fuel) s =
      let s1 = settle (put s blank) in
      let rest = tabulate fuel s1 in if rem_int s1.crtat 16 != 0 then rest else ok s1

  -- `kbmputc` behind the test for the first call.
  unfoldable pub kbmputc_found : (fuel : ℕ) → Screen → (c : ℕ) → Run Screen
  unfolding put settle tabulate
  kbmputc_found fuel s c =
      let tab = tabulate fuel s >>= λ s1. ok (settle s1) in
      if c == b'\t' then tab else ok (settle (put s c))

  -- From one tabulator stop to the next there are at most 8 characters.
  unfoldable pub kbmputc : Display → Screen → (c : ℕ) → Run Screen
  unfolding find_display kbmputc_found
  kbmputc d s c =
      let started = if s.crtat == 0 then find_display d s else s in
      let written = kbmputc_found 8 started c in if c == 0 then ok s else written
