-- ===== src/Create/Frame.antt =====
-- The first frame of a new process, which `create` of c/create.c writes: its words read back.
use mathlib.Core.Path.{subst}
use cs415_a.Base.{sym, ℕ, zero, suc, ◌+◌, ◌*◌, ◌<◌, ◌≤◌, ◌^◌, ◌≡◌, ◌∙◌, ◌⊎◌, refl, arith}
use cs415_a.Base.Word.{add32}
use cs415_a.Image.{Image}
use cs415_a.Kernel.{read_word, write_word}
use cs415_a.Kernel.Memory.{read-write_word, write_word_ne, read-write_word_ne, read-write_word_away}
use cs415_a.Signal.{zero_registers, start_frame}
use cs415_a.Create.{first_frame}

-- `n` words from the offset `o` on are 0.
abbrev zeroed : (n o : ℕ) → (ℕ → ℕ) → (a : ℕ) → ℕ → ℕ
zeroed zero o m a = m
zeroed (suc n) o m a = write_word (zeroed n (o + 4) m a) (add32 a o) 0

read-zeroed :
    (n o i : ℕ) (m : ℕ → ℕ) (a : ℕ)
    → i < n
    → o + 4 * n ≤ 2 ^ 32
    → read_word (zeroed n o m a) (add32 a (o + 4 * i)) ≡ 0
read-zeroed zero o i m a lt h = absurd (omega arith)
read-zeroed (suc n) o zero m a lt h =
    let here : o + 4 * 0 ≡ o = omega arith in
    rw here (read-write_word (zeroed n (o + 4) m a) (add32 a o) 0 (omega arith) (omega arith))
read-zeroed (suc n) o (suc i) m a lt h =
    let there : o + 4 * suc i ≡ o + 4 + 4 * i = omega arith in
    rw there (
      read-write_word_away (zeroed n (o + 4) m a) a (o + 4 + 4 * i) o 0 (omega arith) (omega arith)
      ∙ read-zeroed n (o + 4) i m a (omega arith) (omega arith))

zero_registers-zeroed : (m : ℕ → ℕ) (a : ℕ) → zero_registers m a ≡ zeroed 8 0 m a
unfolding zero_registers
zero_registers-zeroed m a = refl

read-zero_registers :
    (m : ℕ → ℕ) (a i : ℕ) → i < 8 → read_word (zero_registers m a) (add32 a (4 * i)) ≡ 0
read-zero_registers m a i lt =
    let e : 0 + 4 * i ≡ 4 * i = omega arith in
    subst (λ m'. read_word m' (add32 a (4 * i)) ≡ 0) (sym (zero_registers-zeroed m a))
      (subst (λ o. read_word (zeroed 8 0 m a) (add32 a o) ≡ 0) e
        (read-zeroed 8 0 i m a lt (omega arith)))

-- A word is written outside of a place.
write_word_outside :
    (m : ℕ → ℕ) (a o v x : ℕ)
    → a + o + 4 ≤ 2 ^ 32
    → (x < a + o) ⊎ (a + o + 4 ≤ x)
    → write_word m (add32 a o) v x ≡ m x
write_word_outside m a o v x h out =
    write_word_ne m (add32 a o) v x (omega arith) (omega arith) (omega arith) (omega arith)

zeroed_outside :
    (n o : ℕ) (m : ℕ → ℕ) (a x : ℕ)
    → a + o + 4 * n ≤ 2 ^ 32
    → (x < a) ⊎ (a + o + 4 * n ≤ x)
    → zeroed n o m a x ≡ m x
zeroed_outside zero o m a x h out = refl
zeroed_outside (suc n) o m a x h out =
    write_word_outside (zeroed n (o + 4) m a) a o 0 x (omega arith) (omega arith)
    ∙ zeroed_outside n (o + 4) m a x (omega arith) (omega arith)

zero_registers_outside :
    (m : ℕ → ℕ) (a x : ℕ) → a + 32 ≤ 2 ^ 32 → (x < a) ⊎ (a + 32 ≤ x) → zero_registers m a x ≡ m x
zero_registers_outside m a x h out =
    subst (λ m'. m' x ≡ m x) (sym (zero_registers-zeroed m a))
      (zeroed_outside 8 0 m a x (omega arith) (omega arith))

-- The context frame at `a` starts `func` with the registers at 0 and with interrupts on, and behind it
-- is the address of `sysstop`, where `func` returns to; no other memory differs from `m`.
pub record IsFirst (image : Image) (m : ℕ → ℕ) (a func : ℕ) (m' : ℕ → ℕ) : Type 0 where
  pub registers : (i : ℕ) → i < 8 → read_word m' (add32 a (4 * i)) ≡ 0
  pub eip : read_word m' (add32 a 32) ≡ func
  pub cs : read_word m' (add32 a 36) ≡ image.cs
  pub eflags : read_word m' (add32 a 40) ≡ 0x3200
  pub return_address : read_word m' (add32 a 44) ≡ image.sysstop
  pub spared : (x : ℕ) → (x < a) ⊎ (a + 48 ≤ x) → m' x ≡ m x

-- The addresses of the image are words.
pub record IsLoaded (image : Image) : Type 0 where
  pub cs : image.cs < 2 ^ 32
  pub sysstop : image.sysstop < 2 ^ 32

pub IsFirst-first_frame :
    (image : Image) (m : ℕ → ℕ) (a func : ℕ)
    → IsLoaded image
    → func < 2 ^ 32
    → a + 48 ≤ 2 ^ 32
    → IsFirst image m a func (first_frame image m a func)
unfolding first_frame start_frame
IsFirst-first_frame image m a func w small h =
    let m1 = zero_registers m a in
    let m2 = write_word m1 (add32 a 32) func in
    let m3 = write_word m2 (add32 a 36) image.cs in
    let m4 = write_word m3 (add32 a 40) 0x3200 in
    record {
      registers = λ i lt.
          read-write_word_ne m4 a (4 * i) 44 image.sysstop (omega arith) (omega arith)
          ∙ read-write_word_ne m3 a (4 * i) 40 0x3200 (omega arith) (omega arith)
          ∙ read-write_word_ne m2 a (4 * i) 36 image.cs (omega arith) (omega arith)
          ∙ read-write_word_ne m1 a (4 * i) 32 func (omega arith) (omega arith)
          ∙ read-zero_registers m a i lt;
      eip =
          read-write_word_ne m4 a 32 44 image.sysstop (omega arith) (omega arith)
          ∙ read-write_word_ne m3 a 32 40 0x3200 (omega arith) (omega arith)
          ∙ read-write_word_ne m2 a 32 36 image.cs (omega arith) (omega arith)
          ∙ read-write_word m1 (add32 a 32) func (omega arith) small;
      cs =
          read-write_word_ne m4 a 36 44 image.sysstop (omega arith) (omega arith)
          ∙ read-write_word_ne m3 a 36 40 0x3200 (omega arith) (omega arith)
          ∙ read-write_word m2 (add32 a 36) image.cs (omega arith) w.cs;
      eflags =
          read-write_word_ne m4 a 40 44 image.sysstop (omega arith) (omega arith)
          ∙ read-write_word m3 (add32 a 40) 0x3200 (omega arith) (omega arith);
      return_address = read-write_word m4 (add32 a 44) image.sysstop (omega arith) w.sysstop;
      spared = λ x out.
          write_word_outside m4 a 44 image.sysstop x (omega arith) (omega arith)
          ∙ write_word_outside m3 a 40 0x3200 x (omega arith) (omega arith)
          ∙ write_word_outside m2 a 36 image.cs x (omega arith) (omega arith)
          ∙ write_word_outside m1 a 32 func x (omega arith) (omega arith)
          ∙ zero_registers_outside m a x (omega arith) (omega arith);
    }
