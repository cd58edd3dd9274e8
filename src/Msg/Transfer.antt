-- ===== src/Msg/Transfer.antt =====
-- `send_receive_transfer` of c/msg.c, with `_bcopy` of c/startup.S.
use mathlib.Core.Path.{subst}
use cs415_a.Base.{
  ℕ, zero, suc, ◌+◌, ◌%◌, ◌<◌, ◌≤◌, ◌^◌, ◌≡◌, ◌⊎◌, ◌∙◌, refl, true, false, ◌==◌, ◌!=◌, ==_ne,
  ==_refl, if◌then◌else◌, update, arith, inl, inr, Bool-cases,
}
use cs415_a.Base.Word.{add32}
use cs415_a.Kernel.{Kernel, read_word, arg}
use cs415_a.Kernel.Memory.{read-write_word, write_word_ne}
use cs415_a.Msg.{bcopy, min_int, transfer_length, send_receive_transfer}

-- The `n` bytes at `x` and the `m` bytes at `y` lie apart.
abbrev pub Apart : (x n y m : ℕ) → Type 0
Apart x n y m = (x + n ≤ y) ⊎ (y + m ≤ x)

bcopy_outside :
    (n : ℕ) (m : ℕ → ℕ) (src dest x : ℕ)
    → dest + n ≤ 2 ^ 32
    → (x < dest) ⊎ (dest + n ≤ x)
    → bcopy n m src dest x ≡ m x
unfolding bcopy
bcopy_outside zero m src dest x h o = refl
bcopy_outside (suc n) m src dest x h o =
    let ne : (dest == x) ≡ false = ==_ne dest x (omega arith) in
    bcopy_outside n (update m dest (m src)) (add32 src 1) (add32 dest 1) x (omega arith)
      (omega arith)
    ∙ rw ne refl

bcopy_inside :
    (n : ℕ) (m : ℕ → ℕ) (src dest i : ℕ)
    → src + n ≤ 2 ^ 32
    → dest + n ≤ 2 ^ 32
    → Apart src n dest n
    → i < n
    → bcopy n m src dest (dest + i) ≡ m (src + i)
unfolding bcopy
bcopy_inside zero m src dest i hs hd a lt = absurd (omega arith)
bcopy_inside (suc n) m src dest zero hs hd a lt =
    let d : dest + 0 ≡ dest = omega arith in
    let e : src + 0 ≡ src = omega arith in
    rw (d, e)
      (bcopy_outside n (update m dest (m src)) (add32 src 1) (add32 dest 1) dest (omega arith)
          (omega arith)
        ∙ rw (==_refl dest) refl)
bcopy_inside (suc n) m src dest (suc i) hs hd a lt =
    let d : dest + suc i ≡ add32 dest 1 + i = omega arith in
    let e : add32 src 1 + i ≡ src + suc i = omega arith in
    let ne : (dest == src + suc i) ≡ false = ==_ne dest (src + suc i) (omega arith) in
    rw d (
      bcopy_inside n (update m dest (m src)) (add32 src 1) (add32 dest 1) i (omega arith)
        (omega arith) (omega arith) (omega arith)
      ∙ rw e (rw ne refl))

-- The place of a word in the order of the ints: the smallest int has the place 0.
abbrev pub place : ℕ → ℕ
place w = (w + 2 ^ 31) % 2 ^ 32

-- `len` is the smaller one of the ints `a` and `b`.
abbrev pub Smaller : (a b len : ℕ) → Type 0
Smaller a b len = ((place a < place b) × (len ≡ a)) ⊎ ((place b ≤ place a) × (len ≡ b))

min_int-Smaller : (a b len : ℕ) → Smaller a b len → min_int a b ≡ len
min_int-Smaller a b len s = ground (arith, s)

-- What the transfer of `len` bytes leaves in memory and in the two PCBs.
pub record Delivered (k : Kernel) (src dest len : ℕ) (k' : Kernel) : Type 0 where
  pub bytes : (i : ℕ) → i < len → k'.memory (arg k dest 1 + i) ≡ k.memory (arg k src 1 + i)
  pub sender : read_word k'.memory (arg k dest 0) ≡ (k.pcb_table src).pid
  pub spared :
      (x : ℕ)
      → (x < arg k dest 1) ⊎ (arg k dest 1 + len ≤ x)
      → (x < arg k dest 0) ⊎ (arg k dest 0 + 4 ≤ x)
      → k'.memory x ≡ k.memory x
  pub sender_irc : (k'.pcb_table src).irc ≡ len
  pub receiver_irc : (k'.pcb_table dest).irc ≡ len

-- The transfer of as many bytes as `transfer_length` says.
Delivered-length :
    (k : Kernel) (src dest : ℕ)
    → arg k src 1 + transfer_length k src dest ≤ 2 ^ 32
    → arg k dest 1 + transfer_length k src dest ≤ 2 ^ 32
    → arg k dest 0 + 4 ≤ 2 ^ 32
    → Apart (arg k src 1) (transfer_length k src dest) (arg k dest 1) (transfer_length k src dest)
    → Apart (arg k dest 0) 4 (arg k dest 1) (transfer_length k src dest)
    → (k.pcb_table src).pid < 2 ^ 32
    → Delivered k src dest (transfer_length k src dest) (send_receive_transfer k src dest)
unfolding send_receive_transfer
Delivered-length k src dest hs hd hp apart away small =
    let len = transfer_length k src dest in
    let from = arg k src 1 in
    let to = arg k dest 1 in
    let named = arg k dest 0 in
    let copied = if len != 0 then record k { memory = bcopy len k.memory from to } else k in
    record {
      bytes = λ i lt.
          let nonzero : (len != 0) ≡ true = ground arith in
          write_word_ne copied.memory named (k.pcb_table src).pid (to + i) (omega arith)
            (omega arith) (omega arith) (omega arith)
          ∙ rw nonzero (bcopy_inside len k.memory from to i hs hd apart lt);
      sender = read-write_word copied.memory named (k.pcb_table src).pid (omega arith) small;
      spared = λ x out out'.
          write_word_ne copied.memory named (k.pcb_table src).pid x (omega arith) (omega arith)
            (omega arith) (omega arith)
          ∙ elim (Bool-cases (len != 0)) [
            | inl e ↦ rw e (bcopy_outside len k.memory from to x hd out)
            | inr e ↦ rw e refl
          ];
      sender_irc = rw (==_refl src) refl;
      receiver_irc = elim (Bool-cases (src == dest)) [
        | inl e ↦ rw e refl
        | inr e ↦ rw (e, ==_refl dest) refl
      ];
    }

-- `len` is the smaller one of the two lengths, as ints. The buffers of sender and receiver have room
-- for `len` bytes below 2 ^ 32, and lie apart; the word for the sender's PID lies apart from the
-- receiver's buffer; the PID is a 32-bit word. Then the transfer moves `len` bytes of the sender's
-- buffer to the receiver's, stores the sender's PID, and changes no other byte; both calls have `len`
-- as their result.
pub send_receive_transfer-Delivered :
    (k : Kernel) (src dest len : ℕ)
    → Smaller (arg k src 2) (arg k dest 2) len
    → arg k src 1 + len ≤ 2 ^ 32
    → arg k dest 1 + len ≤ 2 ^ 32
    → arg k dest 0 + 4 ≤ 2 ^ 32
    → Apart (arg k src 1) len (arg k dest 1) len
    → Apart (arg k dest 0) 4 (arg k dest 1) len
    → (k.pcb_table src).pid < 2 ^ 32
    → Delivered k src dest len (send_receive_transfer k src dest)
unfolding transfer_length
send_receive_transfer-Delivered k src dest len smaller =
    subst
      (λ n.
        arg k src 1 + n ≤ 2 ^ 32
        → arg k dest 1 + n ≤ 2 ^ 32
        → arg k dest 0 + 4 ≤ 2 ^ 32
        → Apart (arg k src 1) n (arg k dest 1) n
        → Apart (arg k dest 0) 4 (arg k dest 1) n
        → (k.pcb_table src).pid < 2 ^ 32
        → Delivered k src dest n (send_receive_transfer k src dest))
      (min_int-Smaller (arg k src 2) (arg k dest 2) len smaller) (Delivered-length k src dest)
