-- ===== src/Keyboard/Scan.antt =====
-- `kbtoa` of c/kbd.c: scan codes to characters, with the state of the modifier keys.
use Prim.Native.Nat.{bit_and, bit_or}
use cs415_a.Base.{
  ℕ, ◌+◌, ◌-◌, ◌^◌, Bool, ◌||◌, ◌&&◌, ltb, leb, ◌==◌, ◌!=◌, if◌then◌else◌, List, [], ◌∷◌, get_or,
}

abbrev pub key_up : ℕ
key_up = 0x80

abbrev pub lshift : ℕ
lshift = 0x2a

abbrev pub rshift : ℕ
rshift = 0x36

abbrev pub lmeta : ℕ
lmeta = 0x38

abbrev pub lctl : ℕ
lctl = 0x1d

abbrev pub capsl : ℕ
capsl = 0x3a

abbrev pub extesc : ℕ
extesc = 0xe0

abbrev pub inctl : ℕ
inctl = 0x01

abbrev pub inshift : ℕ
inshift = 0x02

abbrev pub capslock : ℕ
capslock = 0x04

abbrev pub inmeta : ℕ
inmeta = 0x08

abbrev pub extended : ℕ
extended = 0x10

abbrev pub nochar : ℕ
nochar = 256

unfoldable pub kbcode : List ℕ
kbcode =
    0 ∷ 27 ∷ b'1' ∷ b'2' ∷ b'3' ∷ b'4' ∷ b'5' ∷ b'6' ∷ b'7' ∷ b'8' ∷ b'9' ∷ b'0' ∷ b'-' ∷ b'=' ∷ 8
    ∷ 9 ∷ b'q' ∷ b'w' ∷ b'e' ∷ b'r' ∷ b't' ∷ b'y' ∷ b'u' ∷ b'i' ∷ b'o' ∷ b'p' ∷ b'[' ∷ b']' ∷ 10 ∷ 0
    ∷ b'a' ∷ b's' ∷ b'd' ∷ b'f' ∷ b'g' ∷ b'h' ∷ b'j' ∷ b'k' ∷ b'l' ∷ b';' ∷ 39 ∷ 96 ∷ 0 ∷ 92 ∷ b'z'
    ∷ b'x' ∷ b'c' ∷ b'v' ∷ b'b' ∷ b'n' ∷ b'm' ∷ b',' ∷ b'.' ∷ b'/' ∷ 0 ∷ 0 ∷ 0 ∷ b' ' ∷ []

unfoldable pub kbshift : List ℕ
kbshift =
    0 ∷ 0 ∷ b'!' ∷ b'@' ∷ b'#' ∷ b'$' ∷ b'%' ∷ b'^' ∷ b'&' ∷ b'*' ∷ b'(' ∷ b')' ∷ b'_' ∷ b'+' ∷ 8
    ∷ 9 ∷ b'Q' ∷ b'W' ∷ b'E' ∷ b'R' ∷ b'T' ∷ b'Y' ∷ b'U' ∷ b'I' ∷ b'O' ∷ b'P' ∷ b'{' ∷ b'}' ∷ 10 ∷ 0
    ∷ b'A' ∷ b'S' ∷ b'D' ∷ b'F' ∷ b'G' ∷ b'H' ∷ b'J' ∷ b'K' ∷ b'L' ∷ b':' ∷ 34 ∷ b'~' ∷ 0 ∷ b'|'
    ∷ b'Z' ∷ b'X' ∷ b'C' ∷ b'V' ∷ b'B' ∷ b'N' ∷ b'M' ∷ b'<' ∷ b'>' ∷ b'?' ∷ 0 ∷ 0 ∷ 0 ∷ b' ' ∷ []

unfoldable pub kbctl : List ℕ
kbctl =
    0 ∷ 0 ∷ 0 ∷ 0 ∷ 0 ∷ 0 ∷ 0 ∷ 0 ∷ 0 ∷ 0 ∷ 0 ∷ 0 ∷ 31 ∷ 0 ∷ 8 ∷ 9 ∷ 17 ∷ 23 ∷ 5 ∷ 18 ∷ 20 ∷ 25 ∷ 21
    ∷ 9 ∷ 15 ∷ 16 ∷ 27 ∷ 29 ∷ 10 ∷ 0 ∷ 1 ∷ 19 ∷ 4 ∷ 6 ∷ 7 ∷ 8 ∷ 10 ∷ 11 ∷ 12 ∷ 0 ∷ 0 ∷ 0 ∷ 0 ∷ 28
    ∷ 26 ∷ 24 ∷ 3 ∷ 22 ∷ 2 ∷ 14 ∷ 13 ∷ []

-- sizeof(kbcode) and sizeof(kbshift), and sizeof(kbctl)
abbrev pub code_size : ℕ
code_size = 58

abbrev pub ctl_size : ℕ
ctl_size = 51

abbrev pub has : ℕ → ℕ → Bool
has state bit = bit_and state bit != 0

-- `state &= ~bit`, where the bit is one of the low eight
abbrev pub clear : ℕ → ℕ → ℕ
clear state bit = bit_and state (2 ^ 32 - 1 - bit)

-- The case of a key that goes up.
unfoldable pub release : ℕ → ℕ → ℕ
release state key =
    if (key == lshift) || (key == rshift)
    then clear state inshift
    else if key == capsl
    then (if has state capslock then clear state capslock else bit_or state capslock)
    else if key == lctl
    then clear state inctl
    else if key == lmeta
    then clear state inmeta
    else state

-- The keys that the switch for special keys names.
unfoldable pub special : ℕ → Bool
special code =
    (code == lshift)
    || (code == rshift)
    || (code == capsl)
    || (code == lctl)
    || (code == lmeta)
    || (code == extesc)

unfoldable pub press : ℕ → ℕ → ℕ
press state code =
    if (code == lshift) || (code == rshift)
    then bit_or state inshift
    else if code == capsl
    then state
    else if code == lctl
    then bit_or state inctl
    else if code == lmeta
    then bit_or state inmeta
    else bit_or state extended

-- From `ch = NOCHAR` on. A table is read only at an index below its size.
unfoldable pub translate : ℕ → ℕ → ℕ
unfolding kbcode kbshift kbctl
translate state code =
    let plain =
      if ltb code code_size
      then (if has state capslock then get_or kbshift code 0 else get_or kbcode code 0)
      else nochar in
    let shifted =
      if has state inshift
      then (if has state capslock then get_or kbcode code 0 else get_or kbshift code 0)
      else plain in
    let ch = if has state inctl then get_or kbctl code 0 else shifted in
    if has state inshift && leb code_size code
    then nochar
    else if has state inctl && leb ctl_size code
    then nochar
    else if has state inmeta
    then ch + 0x80
    else ch

-- The character, and the new state of the modifiers.
unfoldable pub kbtoa : ℕ → ℕ → ℕ × ℕ
unfolding release special press translate
kbtoa state code =
    if has state extended
    then (nochar, clear state extended)
    else if has code key_up
    then (nochar, release state (bit_and code 0x7f))
    else if special code
    then (nochar, press state code)
    else (translate state code, state)
