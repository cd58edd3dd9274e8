-- ===== src/Keyboard/Calls.antt =====
-- c/kbd.c: the upper half of the driver, which the device independent interface calls, and the
-- interrupt service routine.
use Prim.Native.Nat.{bit_and, bit_or}
use cs415_a.Base.{
  ℕ, zero, suc, ◌%◌, true, false, ◌&&◌, ◌||◌, not, ◌==◌, ◌!=◌, if◌then◌else◌, Option, none, some,
  List, [], ◌∷◌, update, Run, ok, aborted, fault, out_of_fuel, ◌>>=◌,
}
use cs415_a.Base.Word.{add32, lt_int}
use cs415_a.Kernel.{Kernel, State, set_irc, set_state}
use cs415_a.Queue.{ready}
use cs415_a.Keyboard.Driver.{Driver, insert_char, remove_char, default_eof, eof_reached, eof_in_buf}
use cs415_a.Keyboard.Icu.{enable_irq}
use cs415_a.Keyboard.Scan.{kbtoa, nochar}

-- DRV_DONE, DRV_BLOCK and DRV_ERROR
pub data Drv : Type 0 where
  done block error : Drv

abbrev pub set_driver : Kernel → Driver → Kernel
set_driver k d = record k { driver = d }

-- `_keyboard_open`, and the wrappers' assignment to `ps.echo`
unfoldable pub open_with : (echo : ℕ) → Kernel → (p : ℕ) → Drv × Kernel
unfolding enable_irq
open_with echo k p = elim k.driver.pcb [
  | some _ ↦ (Drv.error, k)
  | none ↦ (
    Drv.done,
    set_driver k (record (k.driver) {
      pcb = some p;
      buf = 0;
      buf_len = 0;
      ch_read = 0;
      eof = default_eof;
      echo = echo;
      status = 0;
      head = 0;
      size = 0;
      icu = enable_irq k.driver.icu 1 false;
    }),
  )
]

unfoldable pub keyboard_open : Kernel → (p : ℕ) → Drv × Kernel
unfolding open_with
keyboard_open k p = open_with 0 k p

unfoldable pub keyboard_open_echo : Kernel → (p : ℕ) → Drv × Kernel
unfolding open_with
keyboard_open_echo k p = open_with 1 k p

unfoldable pub keyboard_close : Kernel → (p : ℕ) → Drv × Kernel
unfolding enable_irq
keyboard_close k p = (
  Drv.done,
  set_driver k (record (k.driver) {
    pcb = none;
    buf = 0;
    buf_len = 0;
    ch_read = 0;
    eof = default_eof;
    echo = 0;
    status = 0;
    head = 0;
    size = 0;
    icu = enable_irq k.driver.icu 1 true;
  }),
)

-- `value` is the argument that command 53 takes from the caller's list.
unfoldable pub keyboard_ioctl : Kernel → (p cmd value : ℕ) → Drv × Kernel
keyboard_ioctl k p cmd value =
    if cmd == 53
    then (Drv.done, set_driver k (record (k.driver) { eof = value }))
    else (Drv.error, k)

unfoldable pub keyboard_write : Kernel → (p buf buf_len : ℕ) → Drv × Kernel
keyboard_write k p buf buf_len = (Drv.error, k)

-- `ps.buf[ps.ch_read++] = a; if (ps.echo) kputc(0, a);`
unfoldable pub put_char : Kernel → ℕ → Kernel
put_char k a =
    let d = k.driver in
    record k {
      memory = update k.memory (add32 d.buf d.ch_read) a;
      driver = record d {
        ch_read = add32 d.ch_read 1;
        console = if d.echo != 0 then a ∷ d.console else d.console;
      };
    }

-- `read_done`
unfoldable pub read_done : Kernel → (reader : ℕ) → Drv × Kernel
read_done k reader = (Drv.done, set_irc k reader k.driver.ch_read)

-- A round of the loop of `buf_copy`, which goes on by `loop`, with what `remove_char` returned.
unfoldable pub copy_step :
    (loop : Kernel → Run (Drv × Kernel))
    → Kernel
    → (reader : ℕ) → Option ℕ × Driver
    → Run (Drv × Kernel)
unfolding read_done
copy_step loop k reader (none, d) = ok (Drv.block, set_driver k d)
copy_step loop k reader (some a, d) =
    let k1 = set_driver k d in
    let k2 = put_char k1 a in
    let rest = loop k2 in
    if a == d.eof
    then ok (read_done (set_driver k1 (record d { status = bit_or d.status eof_reached })) reader)
    else if (a == b'\n') || not (lt_int k2.driver.ch_read k2.driver.buf_len)
    then ok (read_done k2 reader)
    else rest

unfoldable pub copy_loop : ℕ → Kernel → (reader : ℕ) → Run (Drv × Kernel)
copy_loop zero k reader = out_of_fuel
copy_loop (suc fuel) k reader =
    copy_step (λ k'. copy_loop fuel k' reader) k reader (remove_char k.driver)

-- A round for each character of the buffer, and one that finds it empty.
unfoldable pub copy_fuel : ℕ
copy_fuel = 5

unfoldable pub buf_copy : Kernel → Run (Drv × Kernel)
unfolding copy_loop copy_fuel
buf_copy k = elim k.driver.pcb [ none ↦ aborted | some reader ↦ copy_loop copy_fuel k reader ]

abbrev pub start_read : Kernel → (buf buf_len : ℕ) → Kernel
start_read k buf buf_len =
    set_driver k (record (k.driver) { buf = buf; buf_len = buf_len; ch_read = 0 })

-- `if (buf_copy() == DRV_DONE) … else …` of `keyboard_read`
abbrev pub finish_read : Drv × Kernel → Run (Drv × Kernel)
finish_read (Drv.done, k) = ok (Drv.done, k)
finish_read (Drv.block, k) = aborted
finish_read (Drv.error, k) = aborted

-- `keyboard_read` for the process that opened the driver
unfoldable pub read_owned : Kernel → (p buf buf_len : ℕ) → Run (Drv × Kernel)
unfolding buf_copy
read_owned k p buf buf_len =
    let started = start_read k buf buf_len in
    let copied : Run (Drv × Kernel) = buf_copy started >>= finish_read in
    let in_buf = bit_and k.driver.status eof_in_buf != 0 in
    if not in_buf && lt_int k.driver.size buf_len
    then ok (Drv.block, set_state started p State.reading)
    else if not (lt_int k.driver.size buf_len) || in_buf
    then (if bit_and k.driver.status eof_reached != 0
        then ok (Drv.done, set_irc started p 0)
        else copied)
    else ok (Drv.done, set_irc k p 0)

unfoldable pub keyboard_read : Kernel → (p buf buf_len : ℕ) → Run (Drv × Kernel)
unfolding read_owned
keyboard_read k p buf buf_len = elim k.driver.pcb [
  | none ↦ aborted
  | some owner ↦ if owner == p then read_owned k p buf buf_len else aborted
]

-- The loop of `keyboard_lower` over the scan codes that the controller holds: what is not read
-- when the buffer is full stays there.
unfoldable pub take_codes : Driver → List ℕ → Driver × List ℕ
unfolding insert_char kbtoa
take_codes d [] = (d, [])
take_codes d (code ∷ codes) =
    let (ch, scan) = kbtoa d.scan code in
    let a = ch % 256 in
    let d1 = record d { scan = scan } in
    let (rc, d2) = insert_char d1 a in
    let skipped = take_codes d1 codes in
    let stored = take_codes d2 codes in
    if (a != 0) && (a != nochar) then (if rc == 0 then stored else (d2, codes)) else skipped

-- `keyboard_lower`, up to the end of interrupt
unfoldable pub keyboard_lower : Kernel → List ℕ → Run (Kernel × List ℕ)
unfolding take_codes buf_copy
keyboard_lower k codes =
    let (d, left) = take_codes k.driver codes in
    let k1 = set_driver k d in
    let fed : Run (Kernel × List ℕ) = buf_copy k1 >>= λ (rc, k2). elim rc [
      | Drv.done ↦ elim (k2.driver.pcb) [
        | none ↦ fault
        | some reader ↦ ready k2 reader >>= λ k3. ok (k3, left)
      ]
      | _ ↦ ok (k2, left)
    ] in
    if lt_int d.ch_read d.buf_len then fed else ok (k1, left)
