-- ===== src/Processor.antt =====
-- c/i386.c and c/evec.c: the descriptor tables, the interrupt controllers and the timer.
pub mod Gates
pub mod Timer
pub mod Segments
use cs415_a.Base.{
  ℕ, zero, suc, ◌+◌, ◌-◌, ◌*◌, ◌/◌, ◌%◌, ◌^◌, ◌==◌, ◌||◌, if◌then◌else◌, List, ◌∷◌, update, false,
}
use cs415_a.Base.Word.{add32}
use cs415_a.Console.{div_int}
use cs415_a.Keyboard.Icu.{Icu, enable_irq}

-- `struct idt`
pub record Gate : Type 0 where
  pub loffset : ℕ
  pub segsel : ℕ
  pub rsvd : ℕ
  pub mbz : ℕ
  pub type : ℕ
  pub dpl : ℕ
  pub present : ℕ
  pub hoffset : ℕ

-- IGDT_TRAPG
abbrev pub trap_gate : ℕ
trap_gate = 15

-- NID
abbrev pub num_vectors : ℕ
num_vectors = 48

unfoldable pub set_evec : (xnum handler : ℕ) → (ℕ → Gate) → ℕ → Gate
set_evec xnum handler idt = update idt xnum (record (idt xnum) {
  loffset = handler % 2 ^ 16;
  segsel = 8;
  mbz = 0;
  type = trap_gate;
  dpl = 0;
  present = 1;
  hoffset = handler / 2 ^ 16 % 2 ^ 16;
})

-- `for (i=0; i<NID; ++i) set_evec(i, (long)defevec[i]);`
unfoldable pub set_all : (rounds i : ℕ) → (defevec : ℕ → ℕ) → (ℕ → Gate) → ℕ → Gate
unfolding set_evec
set_all zero i defevec idt = idt
set_all (suc rounds) i defevec idt = set_all rounds (i + 1) defevec (set_evec i (defevec i) idt)

-- What was written to the ports, the last first.
abbrev pub outb : (port value : ℕ) → List (ℕ × ℕ) → List (ℕ × ℕ)
outb port value ports = (port, value) ∷ ports

abbrev pub icu1 : ℕ
icu1 = 0x20

abbrev pub icu2 : ℕ
icu2 = 0xa0

unfoldable pub init8259 : List (ℕ × ℕ) → List (ℕ × ℕ)
init8259 ports =
    let master =
      outb icu1 0xb
        (outb (icu1 + 1) 1 (outb (icu1 + 1) 4 (outb (icu1 + 1) 0x20 (outb icu1 0x11 ports)))) in
    outb icu2 0xb
      (outb (icu2 + 1) 0xb (outb (icu2 + 1) 2 (outb (icu2 + 1) 0x28 (outb icu2 0x11 master))))

-- `memset` of the C library, which clears the table, is a parameter.
unfoldable pub initevec :
    (memset : (ℕ → Gate) → ℕ → Gate)
    → (defevec : ℕ → ℕ) → (ℕ → Gate) × List (ℕ × ℕ)
    → (ℕ → Gate) × List (ℕ × ℕ)
unfolding set_all init8259
initevec memset defevec (idt, ports) = (set_all num_vectors 0 defevec (memset idt), init8259 ports)

abbrev pub timer_freq : ℕ
timer_freq = 1193182

abbrev pub timer_1_port : ℕ
timer_1_port = 0x40

abbrev pub timer_mode : ℕ
timer_mode = timer_1_port + 3

-- TIMER_SEL0 | TIMER_RATEGEN | TIMER_16BIT
abbrev pub rate_generator : ℕ
rate_generator = 0x34

-- TIMER_DIV, for a positive `int`
abbrev pub timer_div : ℕ → ℕ
timer_div d = (timer_freq + d / 2) / d

-- The argument of `outb` is an `unsigned char`. The mask registers are those of `Icu`.
unfoldable pub init_pit : (divisor : ℕ) → Icu × List (ℕ × ℕ) → Icu × List (ℕ × ℕ)
unfolding enable_irq
init_pit divisor (icu, ports) = (
  enable_irq icu 0 false,
  outb timer_1_port (timer_div divisor / 256 % 256)
      (outb timer_1_port (timer_div divisor % 256) (outb timer_mode rate_generator ports)),
)

unfoldable pub end_of_intr : List (ℕ × ℕ) → List (ℕ × ℕ)
end_of_intr ports = outb icu2 0x20 (outb icu1 0x20 ports)

-- `struct sd`
pub record Segment : Type 0 where
  pub lolimit : ℕ
  pub lobase : ℕ
  pub midbase : ℕ
  pub perm : ℕ
  pub iscode : ℕ
  pub isapp : ℕ
  pub dpl : ℕ
  pub present : ℕ
  pub hilimit : ℕ
  pub avl : ℕ
  pub mbz : ℕ
  pub is_32b : ℕ
  pub gran : ℕ
  pub hibase : ℕ

-- The entries of `gdt_copy` as they are initialised: one that is null, two for code, two for data.
abbrev pub null_segment : Segment
null_segment = record {
  lolimit = 0;
  lobase = 0;
  midbase = 0;
  perm = 0;
  iscode = 0;
  isapp = 0;
  dpl = 0;
  present = 0;
  hilimit = 0;
  avl = 0;
  mbz = 0;
  is_32b = 0;
  gran = 0;
  hibase = 0;
}

abbrev pub data_segment : Segment
data_segment = record null_segment {
  lolimit = 0xffff;
  perm = 2;
  isapp = 1;
  present = 1;
  hilimit = 0xf;
  is_32b = 1;
  gran = 1;
}

abbrev pub code_segment : Segment
code_segment = record data_segment { perm = 6; iscode = 1 }

abbrev pub initial_gdt : (i : ℕ) → Segment
initial_gdt i =
    if (i == 1) || (i == 4)
    then code_segment
    else if (i == 2) || (i == 3)
    then data_segment
    else null_segment

-- NBPG
abbrev pub page_bytes : ℕ
page_bytes = 4096

-- KERNEL_STACK
abbrev pub kernel_stack : ℕ
kernel_stack = 4 * 4096

abbrev pub sizmem : ℕ
sizmem = 1024

unfoldable pub set_limit : (pages : ℕ) → Segment → Segment
set_limit pages s = record s { lolimit = pages % 2 ^ 16; hilimit = pages / 2 ^ 16 % 2 ^ 4 }

-- The globals that `setsegs` sets.
pub record Layout : Type 0 where
  pub gdt_copy : ℕ → Segment
  pub gdt : ℕ → Segment
  pub initsp : ℕ
  pub freemem : ℕ
  pub maxaddr : ℕ

-- `blkcopy` of the C library, to `gdt` from `gdt_copy`, is a parameter; `etext` and `end` are the
-- addresses of the image's ends.
unfoldable pub setsegs :
    (blkcopy : (ℕ → Segment) → (ℕ → Segment) → ℕ → Segment) → (etext end : ℕ) → Layout → Layout
unfolding set_limit
setsegs blkcopy etext end g =
    let np = div_int (add32 etext (page_bytes - 1)) page_bytes in
    let g1 = update g.gdt_copy 1 (set_limit np (g.gdt_copy 1)) in
    let g2 = update g1 2 (set_limit sizmem (g1 2)) in
    let g3 = update g2 3 (set_limit sizmem (g2 3)) in
    let g4 = update g3 4 (set_limit sizmem (g3 4)) in
    record g {
      gdt_copy = g4;
      gdt = blkcopy g.gdt g4;
      initsp = add32 end (kernel_stack - 4);
      freemem = add32 end kernel_stack;
      maxaddr = sizmem * page_bytes - 1;
    }
