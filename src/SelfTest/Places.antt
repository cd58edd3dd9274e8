-- ===== src/SelfTest/Places.antt =====
-- Where the test of `kmalloc` in c/init.c finds its blocks, and what `kfree` makes of them.

use cs415_a.Base.{ℕ, ◌+◌, ◌-◌, ◌*◌, ◌<◌, ◌≤◌, ◌≡◌, refl, none, some, false, List, [], ◌∷◌, arith}
use cs415_a.Base.Word.{add32, sub32}
use cs415_a.Heap.{align16, hole_start, hole_end, freemem_end}
use cs415_a.Heap.FreeList.{first_fit}
use cs415_a.Heap.Release.{put_back, stale}

-- The part of the memory above the hole, and what is left of it when a block is taken from it.
abbrev pub high : List (ℕ × ℕ)
high = (hole_end, freemem_end - hole_end - 16) ∷ []

abbrev pub upper : List (ℕ × ℕ)
upper = (hole_end + 272, freemem_end - hole_end - 288) ∷ []

-- The free memory starts at `s`, of which the low part has `n` bytes for a block.
module _ (s n q : ℕ) (pos : 0 < s) (aligned : s ≡ 16 * q) (fits : s + 16 + n ≡ hole_start)
    (room : 16 + 512 + 48 ≤ n) where
  pub first_block : first_fit 256 ((s, n) ∷ high) ≡ some (s, (s + 272, n - 272) ∷ high)
  first_block = ground arith

  pub second_block :
      first_fit 256 ((s + 272, n - 272) ∷ high) ≡ some (s + 272, (s + 544, n - 544) ∷ high)
  second_block = ground arith

  pub third_block : first_fit (n - 544) ((s + 544, n - 544) ∷ high) ≡ some (s + 544, high)
  third_block = ground arith

  pub fourth_block :
      first_fit 256 high ≡ some (hole_end, (hole_end + 272, freemem_end - hole_end - 288) ∷ [])
  fourth_block = refl

  pub too_large : first_fit 0x400000 ((s, n) ∷ high) ≡ none
  too_large = ground arith

  pub back_first : put_back s 256 upper ≡ (s, 256) ∷ upper
  back_first = ground arith

  pub back_second : put_back (s + 272) 256 ((s, 256) ∷ upper) ≡ (s, 528) ∷ upper
  back_second = ground arith

  pub back_third : put_back (s + 544) (n - 544) ((s, 528) ∷ upper) ≡ (s, n) ∷ upper
  back_third = ground arith

  pub back_fourth : put_back hole_end 256 ((s, n) ∷ upper) ≡ (s, n) ∷ high
  back_fourth = ground arith

  pub fresh_first : stale s 256 upper ≡ false
  fresh_first = ground arith

  pub fresh_second : stale (s + 272) 256 ((s, 256) ∷ upper) ≡ false
  fresh_second = ground arith

  pub fresh_third : stale (s + 544) (n - 544) ((s, 528) ∷ upper) ≡ false
  fresh_third = ground arith

  pub fresh_fourth : stale hole_end 256 ((s, n) ∷ upper) ≡ false
  fresh_fourth = ground arith

  pub align_third : align16 (n - 544) ≡ n - 544
  align_third = ground arith

  pub size_third : sub32 hole_start (add32 s (3 * 16 + 0x200)) ≡ n - 544
  size_third = ground arith
