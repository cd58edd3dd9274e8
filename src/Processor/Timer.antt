-- ===== src/Processor/Timer.antt =====
-- The timer of c/i386.c.
use cs415_a.Base.{ℕ, ◌+◌, ◌*◌, List, ◌∷◌}
use cs415_a.Keyboard.Icu.{Icu}

-- The count that the timer is given: the two bytes written last.
abbrev pub count : List (ℕ × ℕ) → ℕ
count ((_, high) ∷ (_, low) ∷ _) = low + 256 * high
count _ = 0
