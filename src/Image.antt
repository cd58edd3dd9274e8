-- ===== src/Image.antt =====
-- Addresses in the kernel's image, and the code segment that `getCS` reads from the processor.
use cs415_a.Base.{ℕ}

pub record Image : Type 0 where
  pub cs : ℕ
  pub sysstop : ℕ
  pub sigtramp : ℕ
  pub fake_return : ℕ
  pub freemem : ℕ
