-- ===== src/Kernel/Memory.antt =====
-- Words of memory: what is written is read back, and other words stay as they were.
use cs415_a.Base.{ℕ, ◌+◌, ◌^◌, ◌<◌, ◌≤◌, ◌≡◌, ◌≢◌, ◌⊎◌, inl, arith, ==_ne, ==_refl}
use cs415_a.Base.Word.{add32}
use cs415_a.Kernel.{read_word, write_word}

module _ (m : ℕ → ℕ) where
  pub read-write_word : (a v : ℕ) → a < 2 ^ 32 → v < 2 ^ 32 → read_word (write_word m a v) a ≡ v
  unfolding read_word write_word
  read-write_word a v ha hv =
      rw
        (
          ==_refl (add32 a 3),
          ==_ne (add32 a 3) a (omega arith),
          ==_ne (add32 a 2) a (omega arith),
          ==_ne (add32 a 1) a (omega arith),
          ==_refl a,
          ==_ne (add32 a 3) (add32 a 1) (omega arith),
          ==_ne (add32 a 2) (add32 a 1) (omega arith),
          ==_refl (add32 a 1),
          ==_ne (add32 a 3) (add32 a 2) (omega arith),
          ==_refl (add32 a 2),
        )
        (omega arith)

  pub write_word_ne :
      (a v x : ℕ) → a ≢ x → add32 a 1 ≢ x → add32 a 2 ≢ x → add32 a 3 ≢ x → write_word m a v x ≡ m x
  unfolding write_word
  write_word_ne a v x h0 h1 h2 h3 =
      rw (==_ne (add32 a 3) x h3, ==_ne (add32 a 2) x h2, ==_ne (add32 a 1) x h1, ==_ne a x h0)

  -- The words at two offsets from an address, in either order.
  pub read-write_word_away :
      (f o p v : ℕ)
      → (o + 4 ≤ p) ⊎ (p + 4 ≤ o)
      → (o + 4 ≤ 2 ^ 32) × (p + 4 ≤ 2 ^ 32)
      → read_word (write_word m (add32 f p) v) (add32 f o) ≡ read_word m (add32 f o)
  unfolding read_word
  read-write_word_away f o p v h bound =
      let a = add32 f p in
      let b = add32 f o in
      omega (
        arith,
        write_word_ne a v b (omega arith) (omega arith) (omega arith) (omega arith),
        write_word_ne a v (add32 b 1) (omega arith) (omega arith) (omega arith) (omega arith),
        write_word_ne a v (add32 b 2) (omega arith) (omega arith) (omega arith) (omega arith),
        write_word_ne a v (add32 b 3) (omega arith) (omega arith) (omega arith) (omega arith),
      )

  -- The word at the lower offset.
  pub read-write_word_ne :
      (f o p v : ℕ)
      → o + 4 ≤ p
      → p + 4 ≤ 2 ^ 32
      → read_word (write_word m (add32 f p) v) (add32 f o) ≡ read_word m (add32 f o)
  read-write_word_ne f o p v h bound = read-write_word_away f o p v (inl h) (omega arith)
