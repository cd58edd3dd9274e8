-- ===== src/Keyboard/Driver.antt =====
-- c/kbd.c and h/kbd.h: the state of the driver, and its circular buffer of characters.
use Prim.Native.Nat.{bit_or}
use cs415_a.Base.{ℕ, ◌+◌, ◌-◌, ◌%◌, ◌^◌, ltb, ◌==◌, List, if◌then◌else◌, Option, none, some, update}
use cs415_a.Keyboard.Icu.{Icu}

-- `proc_state ps`, `kb_buf`, `head`, `size` and the scan state `state`; with them what the driver
-- changes outside: the interrupt masks, and the characters echoed to the console, the last first.
pub record Driver : Type 0 where
  pub pcb : Option ℕ
  pub buf : ℕ
  pub buf_len : ℕ
  pub ch_read : ℕ
  pub eof : ℕ
  pub echo : ℕ
  pub status : ℕ
  pub kb_buf : ℕ → ℕ
  pub head : ℕ
  pub size : ℕ
  pub scan : ℕ
  pub icu : Icu
  pub console : List ℕ

abbrev pub keyboard_buf_len : ℕ
keyboard_buf_len = 4

abbrev pub eof_reached : ℕ
eof_reached = 1

abbrev pub eof_in_buf : ℕ
eof_in_buf = 2

abbrev pub default_eof : ℕ
default_eof = 4

-- A byte of `kb_buf` is a `char`: it is moved, and read back as an `unsigned char`.
unfoldable pub insert_char : Driver → ℕ → ℕ × Driver
insert_char d c =
    if ltb d.size keyboard_buf_len
    then (
      0,
      record d {
        kb_buf = update d.kb_buf ((d.head + d.size) % keyboard_buf_len) c;
        size = d.size + 1;
        status = if c == d.eof then bit_or d.status eof_in_buf else d.status;
      },
    )
    else (2 ^ 32 - 1, d)

-- `none` for the result -1
unfoldable pub remove_char : Driver → Option ℕ × Driver
remove_char d =
    if ltb 0 d.size
    then (
      some (d.kb_buf d.head),
      record d { head = (d.head + 1) % keyboard_buf_len; size = d.size - 1 },
    )
    else (none, d)
