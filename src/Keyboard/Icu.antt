-- ===== src/Keyboard/Icu.antt =====
-- `enable_irq` of c/i386.c: the mask registers of the two interrupt controllers.
use Prim.Native.Nat.{bit_and, bit_or}
use cs415_a.Base.{ℕ, ◌-◌, ◌^◌, Bool, ltb, if◌then◌else◌}

pub record Icu : Type 0 where
  pub master : ℕ
  pub slave : ℕ

-- `val |= 1 << irq` or `val &= ~(1 << irq)`, on an `unsigned char`
unfoldable pub mask_bit : ℕ → ℕ → Bool → ℕ
mask_bit val irq disable = if disable then bit_or val (2 ^ irq) else bit_and val (255 - 2 ^ irq)

unfoldable pub enable_irq : Icu → ℕ → Bool → Icu
unfolding mask_bit
enable_irq c irq disable =
    if ltb irq 8
    then record c { master = mask_bit c.master irq disable }
    else record c { slave = mask_bit c.slave (irq - 8) disable }
