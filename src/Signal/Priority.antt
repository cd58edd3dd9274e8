-- ===== src/Signal/Priority.antt =====
-- `msb_1_pos` and `deliver_signal` of c/signal.c.
use cs415_a.Base.{
  ℕ, suc, ◌-◌, ◌<◌, ◌≤◌, ◌^◌, ◌≡◌, arith, true, false, ◌!=◌, ==_refl, ◌≢◌, inl, inr, ◌⊎◌,
}
use cs415_a.Base.Word.{sub32}
use cs415_a.Base.Bits.{and_high, and_clear, pow-pos, pow_mono}
use cs415_a.Kernel.{Kernel}
use cs415_a.Image.{Image}
use cs415_a.Signal.{
  msb_1_pos, signal_to_deliver, higher_signals, deliver_signal, frame_size, deliver,
}
use native.Mathlib.Nat.{two-pow-succ}
use Prim.Native.Nat.{bit_and}
use native.Mathlib.Decide.{dec_le}

-- `s` is the highest signal of the set `x`.
pub record IsHighest (s x : ℕ) : Type 0 where
  pub is_signal : s < 32
  pub member : 2 ^ s ≤ x
  pub none_above : x < 2 ^ suc s

msb_bounds :
    (x : ℕ)
    → 0 < x
    → x < 2 ^ 32
    → (msb_1_pos x < 32) × (2 ^ (31 - msb_1_pos x) ≤ x) × (x < 2 ^ (32 - msb_1_pos x))
unfolding msb_1_pos
msb_bounds x pos small = ground arith

pub signal_to_deliver-IsHighest : (x : ℕ) → 0 < x → x < 2 ^ 32 → IsHighest (signal_to_deliver x) x
signal_to_deliver-IsHighest x pos small =
    let (lt, lo, hi) = msb_bounds x pos small in
    let e : 31 - msb_1_pos x ≡ signal_to_deliver x = omega arith in
    let f : 32 - msb_1_pos x ≡ suc (signal_to_deliver x) = omega arith in
    record { is_signal = omega arith; member = rw e at lo; none_above = rw f at hi }

-- The mask after the delivery of `s`: all signals above `s`.
pub higher_signals_lem : (s : ℕ) → s < 32 → higher_signals s ≡ 2 ^ 32 - 2 ^ suc s
unfolding higher_signals
higher_signals_lem s h = omega (arith, two-pow-succ s, pow-pos s, pow_mono (suc s) 32 h)

-- What the delivery of the signal `s` changes in the PCB.
pub record Taken (k : Kernel) (p s : ℕ) (k' : Kernel) : Type 0 where
  pub pending : (k'.pcb_table p).pending_sig ≡ (k.pcb_table p).pending_sig - 2 ^ s
  pub mask : (k'.pcb_table p).hi_sig ≡ 2 ^ 32 - 2 ^ suc s
  pub stack : (k'.pcb_table p).esp ≡ sub32 (k.pcb_table p).esp frame_size

deliver-Taken :
    (image : Image) (k : Kernel) (p s : ℕ)
    → IsHighest s (k.pcb_table p).pending_sig
    → Taken k p s (deliver image k p s)
unfolding deliver
deliver-Taken image k p s h =
    let cleared = and_clear s 32 (k.pcb_table p).pending_sig h.is_signal h.member h.none_above in
    let above = higher_signals_lem s h.is_signal in
    record { pending = rw ==_refl cleared; mask = rw ==_refl above; stack = rw ==_refl }

highest_above : (s m x : ℕ) → IsHighest s x → 2 ^ m ≤ x → m ≤ s
highest_above s m x h le = elim (dec_le m s) [
  | yes a ↦ a
  | no a ↦ absurd (omega (arith, pow_mono (suc s) m (omega arith), h.none_above))
]

module _ (image : Image) (k : Kernel) (p m : ℕ) (small : (k.pcb_table p).pending_sig < 2 ^ 32)
    (mask : (k.pcb_table p).hi_sig ≡ 2 ^ 32 - 2 ^ m) (le : m ≤ 32) where
  masked : (k.pcb_table p).pending_sig < 2 ^ m → deliver_signal image k p ≡ k
  unfolding deliver_signal
  masked h =
      let e : (bit_and (k.pcb_table p).pending_sig (k.pcb_table p).hi_sig != 0) ≡ false =
        rw (mask, (and_high m 32 _ le small).0 h) in
      rw e

  pub delivered :
      2 ^ m ≤ (k.pcb_table p).pending_sig
      → deliver_signal image k p ≡ deliver image k p (signal_to_deliver (k.pcb_table p).pending_sig)
  unfolding deliver_signal
  delivered h =
      let some : bit_and (k.pcb_table p).pending_sig (k.pcb_table p).hi_sig ≢ 0 =
        rw mask ((and_high m 32 _ le small).1 h) in
      let e : (bit_and (k.pcb_table p).pending_sig (k.pcb_table p).hi_sig != 0) ≡ true =
        ground arith in
      rw e

  -- The pending signals are a 32-bit set, and the mask of the process lets through those from `m` on,
  -- where `m` is at most 32. Then either no pending signal is
  -- as high as `m` and `deliver_signal` changes nothing; or it delivers the highest pending
  -- signal, which is at least `m`: that signal alone is no longer pending, only higher signals
  -- are let through, and the stack pointer is a frame lower.
  pub deliver_signal-IsHighest :
      (((k.pcb_table p).pending_sig < 2 ^ m) × (deliver_signal image k p ≡ k))
      ⊎ ((s : ℕ) × IsHighest s (k.pcb_table p).pending_sig
          × (m ≤ s)
          × Taken k p s (deliver_signal image k p))
  deliver_signal-IsHighest = elim (dec_le (2 ^ m) (k.pcb_table p).pending_sig) [
    | no h ↦ inl (omega arith, masked (omega arith))
    | yes h ↦
        let x = (k.pcb_table p).pending_sig in
        let top = signal_to_deliver-IsHighest x (omega (arith, pow-pos m)) small in
        let s = signal_to_deliver x in
        inr (s, top, highest_above s m x top h, rw (delivered h) (deliver-Taken image k p s top))
  ]
