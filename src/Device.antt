-- ===== src/Device.antt =====
-- c/di_calls.c: the device independent interface. The entries of `devtab` are those that
-- `init_keyboard` of c/init.c sets: device 0 does not echo, device 1 does.
pub mod Open
use cs415_a.Base.{
  ℕ, zero, suc, ◌+◌, Bool, true, false, ◌||◌, not, ◌==◌, if◌then◌else◌, Option, none, some, update,
  Run, ok, ◌>>=◌,
}
use cs415_a.Base.Word.{lt_int, minus}
use cs415_a.Kernel.{Kernel, num_device, num_fd, set_irc, set_pcb}
use cs415_a.Keyboard.Calls.{
  Drv, keyboard_open, keyboard_open_echo, keyboard_close, keyboard_ioctl, keyboard_write,
  keyboard_read,
}

-- `devtab[dv].dvopen`
unfoldable pub dvopen : (dv : ℕ) → Kernel → (p : ℕ) → Drv × Kernel
dvopen dv k p = if dv == 0 then keyboard_open k p else keyboard_open_echo k p

abbrev pub is_none : Option ℕ → Bool
is_none none = true
is_none (some _) = false

-- The first empty slot of the descriptor table from `fd` on, NUM_FD if there is none.
unfoldable pub find_fd : (rounds fd : ℕ) → (ℕ → Option ℕ) → ℕ
find_fd zero fd opened = fd
find_fd (suc rounds) fd opened =
    let rest = find_fd rounds (fd + 1) opened in if is_none (opened fd) then fd else rest

abbrev pub set_opened : Kernel → (p fd : ℕ) → Option ℕ → Kernel
set_opened k p fd v =
    set_pcb k p (record (k.pcb_table p) { opened_dv = update (k.pcb_table p).opened_dv fd v })

unfoldable pub di_open : Kernel → (p dv_no : ℕ) → Drv × Kernel
unfolding find_fd dvopen
di_open k p dv_no =
    let fd = find_fd num_fd 0 (k.pcb_table p).opened_dv in
    let (rc, k1) = dvopen dv_no k p in
    let opened : Drv × Kernel = elim rc [
      | Drv.done ↦ (Drv.done, set_irc (set_opened k1 p fd (some dv_no)) p fd)
      | _ ↦ (Drv.error, set_irc k1 p (minus 1))
    ] in
    if lt_int dv_no 0 || not (lt_int dv_no num_device)
    then (Drv.error, set_irc k p (minus 1))
    else if lt_int fd num_fd
    then opened
    else (Drv.error, set_irc k p (minus 1))

unfoldable pub di_close : Kernel → (p fd : ℕ) → Drv × Kernel
di_close k p fd =
    let (rc, k1) = keyboard_close k p in
    let closed : Drv × Kernel = elim rc [
      | Drv.done ↦ (Drv.done, set_irc (set_opened k1 p fd none) p 0)
      | _ ↦ (Drv.error, set_irc k1 p (minus 1))
    ] in
    if lt_int fd 0 || not (lt_int fd num_fd) || is_none ((k.pcb_table p).opened_dv fd)
    then (Drv.error, set_irc k p (minus 1))
    else closed

-- The guard of `di_write`, `di_read` and `di_ioctl`.
abbrev pub bad_fd : Kernel → (p fd : ℕ) → Bool
bad_fd k p fd = lt_int fd 0 || not (lt_int fd num_device) || is_none ((k.pcb_table p).opened_dv fd)

-- What the interface makes of the driver's answer to a read or a write.
abbrev pub finish : (p : ℕ) → Drv × Kernel → Drv × Kernel
finish p (Drv.done, k) = (Drv.done, k)
finish p (Drv.block, k) = (Drv.block, k)
finish p (Drv.error, k) = (Drv.error, set_irc k p (minus 1))

unfoldable pub di_write : Kernel → (p fd buf buf_len : ℕ) → Drv × Kernel
unfolding keyboard_write
di_write k p fd buf buf_len =
    if bad_fd k p fd
    then (Drv.error, set_irc k p (minus 1))
    else finish p (keyboard_write k p buf buf_len)

unfoldable pub di_read : Kernel → (p fd buf buf_len : ℕ) → Run (Drv × Kernel)
di_read k p fd buf buf_len =
    let answered = keyboard_read k p buf buf_len >>= λ r. ok (finish p r) in
    if bad_fd k p fd then ok (Drv.error, set_irc k p (minus 1)) else answered

unfoldable pub di_ioctl : Kernel → (p fd cmd value : ℕ) → Drv × Kernel
unfolding keyboard_ioctl
di_ioctl k p fd cmd value =
    let (rc, k1) = keyboard_ioctl k p cmd value in
    let answered : Drv × Kernel = elim rc [
      | Drv.done ↦ (Drv.done, set_irc k1 p 0)
      | _ ↦ (Drv.error, set_irc k1 p (minus 1))
    ] in
    if bad_fd k p fd then (Drv.error, set_irc k p (minus 1)) else answered
