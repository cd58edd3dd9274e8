-- ===== src/Processor/Segments.antt =====
-- The segments of c/i386.c.
use cs415_a.Base.{ℕ, ◌+◌, ◌-◌, ◌*◌, ◌/◌, ◌<◌, ◌≤◌, ◌^◌, ◌≡◌, ◌∙◌, ap, arith}
use cs415_a.Base.Word.{add32}
use cs415_a.Console.{div_int}
use cs415_a.Processor.{Segment, Layout, set_limit, setsegs}

-- The limit that the processor reads, in pages.
abbrev pub limit : Segment → ℕ
limit s = s.hilimit * 2 ^ 16 + s.lolimit

pub record Spans (etext end : ℕ) (g : Layout) : Type 0 where
  pub code_covers : etext ≤ limit (g.gdt 1) * 4096
  pub code_tight : limit (g.gdt 1) * 4096 < etext + 4096
  pub data_limit : limit (g.gdt 2) ≡ 1024
  pub stack_limit : limit (g.gdt 3) ≡ 1024
  pub boot_limit : limit (g.gdt 4) ≡ 1024
  pub stack_free : g.initsp + 4 ≡ g.freemem
  pub free : g.freemem ≡ end + 4 * 4096

limit-set_limit : (pages : ℕ) (s : Segment) → pages < 2 ^ 20 → limit (set_limit pages s) ≡ pages
unfolding set_limit
limit-set_limit pages s lt = omega arith

-- The copying of the table copies its first five entries; the code of the image ends at least 4096
-- bytes below 2 ^ 31, and the image more than a stack below it. Then `setsegs` gives the code segment
-- the pages of the code, and each other segment the 1024 pages of memory; the free memory starts
-- behind the kernel's stack, and the first stack pointer is 4 below.
pub setsegs-Spans :
    (blkcopy : (ℕ → Segment) → (ℕ → Segment) → ℕ → Segment) (etext end : ℕ) (g : Layout)
    → ((to from : ℕ → Segment) (i : ℕ) → i < 5 → blkcopy to from i ≡ from i)
    → etext + 4096 ≤ 2 ^ 31
    → end + 4 * 4096 < 2 ^ 31
    → Spans etext end (setsegs blkcopy etext end g)
unfolding setsegs
setsegs-Spans blkcopy etext end g copies low high =
    let np = div_int (add32 etext (4096 - 1)) 4096 in
    let pages : np ≡ (etext + 4095) / 4096 = ground arith in
    let code : limit ((setsegs blkcopy etext end g).gdt 1) ≡ np =
      ap limit (copies g.gdt _ 1 (omega arith))
      ∙ limit-set_limit np (g.gdt_copy 1) (omega (arith, pages)) in
    record {
      code_covers = omega (arith, code, pages);
      code_tight = omega (arith, code, pages);
      data_limit =
          ap limit (copies g.gdt _ 2 (omega arith))
          ∙ limit-set_limit 1024 (g.gdt_copy 2) (omega arith);
      stack_limit =
          ap limit (copies g.gdt _ 3 (omega arith))
          ∙ limit-set_limit 1024 (g.gdt_copy 3) (omega arith);
      boot_limit =
          ap limit (copies g.gdt _ 4 (omega arith))
          ∙ limit-set_limit 1024 (g.gdt_copy 4) (omega arith);
      stack_free = omega arith;
      free = omega arith;
    }
