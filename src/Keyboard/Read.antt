-- ===== src/Keyboard/Read.antt =====
-- `keyboard_read` of c/kbd.c, when the buffer holds as many characters as are asked for.
use Prim.Native.Nat.{bit_and}
use cs415_a.Base.{
  ℕ, ◌^◌, ◌<◌, ◌≤◌, ◌≡◌, ◌∙◌, refl, ap, arith, false, ◌==◌, ◌!=◌, ==_refl, if◌then◌else◌, none,
  some, [], inl, inr, Bool-cases, Run, aborted, ◌>>=◌,
}
use cs415_a.Base.Word.{lt_int}
use cs415_a.Kernel.{Kernel}
use cs415_a.Keyboard.Driver.{eof_reached, eof_in_buf}
use cs415_a.Keyboard.Ring.{contents}
use cs415_a.Keyboard.Calls.{Drv, start_read, buf_copy, finish_read, read_owned, keyboard_read}
use cs415_a.Keyboard.Copy.{buf_copy_empty}

module _ (k : Kernel) (p buf buf_len : ℕ) (owner : k.driver.pcb ≡ some p)
    (open_end : bit_and k.driver.status eof_reached ≡ 0) (small : buf_len < 2 ^ 31)
    (le : buf_len ≤ k.driver.size) (bound : k.driver.size ≤ 4) where
  enough : lt_int k.driver.size buf_len ≡ false
  enough = ground arith

  owned_copies : read_owned k p buf buf_len ≡ (buf_copy (start_read k buf buf_len) >>= finish_read)
  unfolding read_owned
  owned_copies = elim (Bool-cases (bit_and k.driver.status eof_in_buf != 0)) [
    | inl e ↦ rw (e, enough, open_end) refl
    | inr e ↦ rw (e, enough, open_end) refl
  ]

  read_copies :
      keyboard_read k p buf buf_len ≡ (buf_copy (start_read k buf buf_len) >>= finish_read)
  unfolding keyboard_read
  read_copies =
      ap
        (λ o. elim o as (λ _. Run (Drv × Kernel)) [
          | none ↦ aborted
          | some i ↦ if i == p then read_owned k p buf buf_len else aborted
        ])
        owner
      ∙ rw (==_refl p) owned_copies

-- The process that opened the driver asks for no character, the buffer is empty, and no read has
-- come to an end of file. Then `keyboard_read` aborts the kernel.
pub keyboard_read-aborts :
    (k : Kernel) (p buf : ℕ)
    → k.driver.pcb ≡ some p
    → bit_and k.driver.status eof_reached ≡ 0
    → k.driver.size ≡ 0
    → keyboard_read k p buf 0 ≡ aborted
keyboard_read-aborts k p buf owner open_end e =
    let none_left : contents k.driver ≡ [] = rw e refl in
    read_copies k p buf 0 owner open_end (omega arith) (omega arith) (omega arith)
    ∙ rw (buf_copy_empty (start_read k buf 0) p owner none_left) refl
