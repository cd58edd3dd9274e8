-- ===== src/Keyboard/Copy.antt =====
-- `buf_copy` of c/kbd.c, on the list of the characters in the buffer.
use Prim.Native.Nat.{bit_or}
use cs415_a.Base.{
  ℕ, zero, suc, ◌+◌, ◌-◌, ◌^◌, ◌<◌, ◌≡◌, ◌∙◌, refl, ap, arith, true, false, leb, not, ◌||◌, ◌==◌,
  ==_refl, if◌then◌else◌, none, some, List, [], ◌∷◌, length, update, inl, inr, Bool-cases, ok,
  Returns, aborted,
}
use cs415_a.Base.Word.{add32, lt_int}
use cs415_a.Kernel.{Kernel}
use cs415_a.Keyboard.Driver.{eof_reached, remove_char, Driver}
use cs415_a.Keyboard.Ring.{contents, IsRing, advance, remove_char-pops, remove_char_empty, ring}
use cs415_a.Keyboard.Calls.{
  Drv, set_driver, put_char, read_done, copy_loop, copy_fuel, buf_copy, copy_step,
}

-- Why the copying stops.
pub data Stop : Type 0 where
  starved fulfilled end_of_file : Stop

-- What is moved, why it stops, and what is left in the buffer, with `room` characters still asked
-- for.
abbrev pub copied : (eof room : ℕ) → List ℕ → List ℕ
copied eof room [] = []
copied eof room (c ∷ cs) =
    if c == eof
    then []
    else if (c == b'\n') || leb room 1
    then c ∷ []
    else c ∷ copied eof (room - 1) cs

abbrev pub stop : (eof room : ℕ) → List ℕ → Stop
stop eof room [] = Stop.starved
stop eof room (c ∷ cs) =
    if c == eof
    then Stop.end_of_file
    else if (c == b'\n') || leb room 1
    then Stop.fulfilled
    else stop eof (room - 1) cs

abbrev pub left : (eof room : ℕ) → List ℕ → List ℕ
left eof room [] = []
left eof room (c ∷ cs) =
    if c == eof then cs else if (c == b'\n') || leb room 1 then cs else left eof (room - 1) cs

abbrev pub put_bytes : (ℕ → ℕ) → ℕ → List ℕ → ℕ → ℕ
put_bytes m a [] = m
put_bytes m a (c ∷ cs) = put_bytes (update m a c) (add32 a 1) cs

abbrev pub answer : Stop → Drv
answer Stop.starved = Drv.block
answer _ = Drv.done

abbrev result : Stop → (before after : ℕ) → ℕ
result Stop.starved before after = before
result _ before after = after

-- The outcome of copying from the buffer `cs` for the process `reader`.
pub record Fed (k : Kernel) (reader : ℕ) (cs : List ℕ) (r : Drv × Kernel) : Type 0 where
  pub rc : r.0 ≡ answer (stop k.driver.eof (k.driver.buf_len - k.driver.ch_read) cs)
  pub buffer : contents r.1.driver ≡ left k.driver.eof (k.driver.buf_len - k.driver.ch_read) cs
  pub count :
      r.1.driver.ch_read
      ≡ k.driver.ch_read + length (copied k.driver.eof (k.driver.buf_len - k.driver.ch_read) cs)
  pub memory :
      r.1.memory
      ≡ put_bytes k.memory
          (add32 k.driver.buf k.driver.ch_read)
          (copied k.driver.eof (k.driver.buf_len - k.driver.ch_read) cs)
  pub irc :
      (r.1.pcb_table reader).irc
      ≡ result
          (stop k.driver.eof (k.driver.buf_len - k.driver.ch_read) cs)
          (k.pcb_table reader).irc
          r.1.driver.ch_read

-- The oldest character `c` is moved to the reader.
abbrev taken : Kernel → (c : ℕ) → Kernel
taken k c = put_char (set_driver k (advance k.driver)) c

-- One round of the loop, by what the buffer holds.
module _ (fuel : ℕ) (k : Kernel) (reader : ℕ) where
  loop_empty : contents k.driver ≡ [] → copy_loop (suc fuel) k reader ≡ ok (Drv.block, k)
  unfolding copy_loop copy_step
  loop_empty e =
      ap (copy_step (λ k'. copy_loop fuel k' reader) k reader) (remove_char_empty k.driver e)

  module _ (c : ℕ) (out : remove_char k.driver ≡ (some c, advance k.driver)) where
    step_eq :
        copy_loop (suc fuel) k reader
        ≡ copy_step (λ k'. copy_loop fuel k' reader) k reader (some c, advance k.driver)
    unfolding copy_loop
    step_eq = ap (copy_step (λ k'. copy_loop fuel k' reader) k reader) out

    loop_eof :
        (c == k.driver.eof) ≡ true
        → copy_loop (suc fuel) k reader
          ≡ ok (
              read_done
                (set_driver k
                  (record (advance k.driver) { status = bit_or k.driver.status eof_reached }))
                reader)
    unfolding copy_step
    loop_eof e = step_eq ∙ rw e refl

    loop_last :
        (c == k.driver.eof) ≡ false
        → ((c == b'\n') || leb (k.driver.buf_len - k.driver.ch_read) 1) ≡ true
        → k.driver.ch_read < k.driver.buf_len
        → k.driver.buf_len < 2 ^ 31
        → copy_loop (suc fuel) k reader ≡ ok (read_done (taken k c) reader)
    unfolding copy_step put_char
    loop_last e f lt small =
        let g : ((c == b'\n') || not (lt_int (add32 k.driver.ch_read 1) k.driver.buf_len)) ≡ true =
          ground arith in
        step_eq ∙ rw (e, g) refl

    loop_go :
        (c == k.driver.eof) ≡ false
        → ((c == b'\n') || leb (k.driver.buf_len - k.driver.ch_read) 1) ≡ false
        → k.driver.ch_read < k.driver.buf_len
        → k.driver.buf_len < 2 ^ 31
        → copy_loop (suc fuel) k reader ≡ copy_loop fuel (taken k c) reader
    unfolding copy_step put_char
    loop_go e f lt small =
        let g : ((c == b'\n') || not (lt_int (add32 k.driver.ch_read 1) k.driver.buf_len)) ≡ false =
          ground arith in
        step_eq ∙ rw (e, g) refl

-- A round that ends the copying, and one that goes on.
module _ (k : Kernel) (reader c : ℕ) (cs : List ℕ) where
  Fed-eof :
      (c == k.driver.eof) ≡ true
      → contents (advance k.driver) ≡ cs
      → Fed k reader (c ∷ cs) (
          read_done
            (set_driver k
              (record (advance k.driver) { status = bit_or k.driver.status eof_reached }))
            reader)
  unfolding read_done
  Fed-eof e f = record {
    rc = rw e refl;
    buffer = rw e f;
    count = rw e (omega arith);
    memory = rw e refl;
    irc = rw (e, ==_refl reader) refl;
  }

  Fed-last :
      (c == k.driver.eof) ≡ false
      → ((c == b'\n') || leb (k.driver.buf_len - k.driver.ch_read) 1) ≡ true
      → k.driver.ch_read < k.driver.buf_len
      → k.driver.buf_len < 2 ^ 31
      → contents (advance k.driver) ≡ cs
      → Fed k reader (c ∷ cs) (read_done (taken k c) reader)
  unfolding read_done put_char
  Fed-last e g lt small f = record {
    rc = rw (e, g) refl;
    buffer = rw (e, g) f;
    count = rw (e, g) (omega arith);
    memory = rw (e, g) refl;
    irc = rw (e, g, ==_refl reader) refl;
  }

  Fed-go :
      (r : Drv × Kernel)
      → (c == k.driver.eof) ≡ false
      → ((c == b'\n') || leb (k.driver.buf_len - k.driver.ch_read) 1) ≡ false
      → k.driver.ch_read < k.driver.buf_len
      → k.driver.buf_len < 2 ^ 31
      → Fed (taken k c) reader cs r
      → Fed k reader (c ∷ cs) r
  unfolding put_char
  Fed-go r e g lt small f =
      let next : add32 k.driver.ch_read 1 ≡ k.driver.ch_read + 1 = omega arith in
      let room : k.driver.buf_len - add32 k.driver.ch_read 1
          ≡ k.driver.buf_len - k.driver.ch_read - 1 =
        omega arith in
      let at : add32 k.driver.buf (add32 k.driver.ch_read 1)
          ≡ add32 (add32 k.driver.buf k.driver.ch_read) 1 =
        omega arith in
      record {
        rc = rw (e, g) (rw room at f.rc);
        buffer = rw (e, g) (rw room at f.buffer);
        count = rw (e, g) (omega (arith, rw room at f.count));
        memory = rw (e, g) (rw (room, at) at f.memory);
        irc = rw (e, g) (rw room at f.irc);
      }

length-ring : (n h : ℕ) (buf : ℕ → ℕ) → length (ring n h buf) ≡ n
length-ring zero h buf = refl
length-ring (suc n) h buf = omega (arith, length-ring n (h + 1) buf)

copy_loop-Fed :
    (fuel : ℕ) (k : Kernel) (reader : ℕ) (cs : List ℕ)
    → IsRing k.driver
    → contents k.driver ≡ cs
    → length cs < fuel
    → k.driver.ch_read < k.driver.buf_len
    → k.driver.buf_len < 2 ^ 31
    → Returns (Fed k reader cs) (copy_loop fuel k reader)
unfolding put_char
copy_loop-Fed zero k reader cs v e f lt small = absurd (omega arith)
copy_loop-Fed (suc fuel) k reader [] v e f lt small = (
  (Drv.block, k),
  loop_empty fuel k reader e,
  record { rc = refl; buffer = e; count = omega arith; memory = refl; irc = refl },
)
copy_loop-Fed (suc fuel) k reader (c ∷ cs) v e f lt small =
    let (out, rest, at_rest) = remove_char-pops k.driver c cs v e in
    elim (Bool-cases (c == k.driver.eof)) [
      | inl g ↦ (_, loop_eof fuel k reader c out g, Fed-eof k reader c cs g rest)
      | inr g ↦ elim (Bool-cases ((c == b'\n') || leb (k.driver.buf_len - k.driver.ch_read) 1)) [
        | inl h ↦ (
          _,
          loop_last fuel k reader c out g h lt small,
          Fed-last k reader c cs g h lt small rest,
        )
        | inr h ↦
            let (r, e', done) =
              copy_loop-Fed fuel (taken k c) reader cs
                (record { head = at_rest.head; size = at_rest.size }) rest (omega arith)
                (ground arith) small in
            (
              r,
              loop_go fuel k reader c out g h lt small ∙ e',
              Fed-go k reader c cs r g h lt small done,
            )
      ]
    ]

-- The driver serves `reader`, whose read of fewer than 2 ^ 31 characters is not finished, and its
-- head is an index and its size within bounds. Then `buf_copy` returns. The characters
-- up to an end of file (which is dropped), a newline or the length asked for are stored from the
-- next place of the reader's buffer on; the rest stays in the driver's buffer, in order. If the
-- characters run out first the answer is DRV_BLOCK and the result of the reader is not changed;
-- otherwise it is DRV_DONE and the result is the number of characters read.
pub buf_copy-Fed :
    (k : Kernel) (reader : ℕ)
    → k.driver.pcb ≡ some reader
    → IsRing k.driver
    → k.driver.ch_read < k.driver.buf_len
    → k.driver.buf_len < 2 ^ 31
    → Returns (Fed k reader (contents k.driver)) (buf_copy k)
unfolding buf_copy copy_fuel
buf_copy-Fed k reader e v lt small =
    let (r, run, fed) =
      copy_loop-Fed 5 k reader (contents k.driver) v refl
        (omega (arith, v.size, length-ring k.driver.size k.driver.head k.driver.kb_buf)) lt small in
    (r, ap (λ o. elim o [ none ↦ aborted | some i ↦ copy_loop copy_fuel k i ]) e ∙ run, fed)

-- A buffer without characters.
pub buf_copy_empty :
    (k : Kernel) (reader : ℕ)
    → k.driver.pcb ≡ some reader
    → contents k.driver ≡ []
    → buf_copy k ≡ ok (Drv.block, k)
unfolding buf_copy copy_fuel
buf_copy_empty k reader e none_left =
    ap (λ o. elim o [ none ↦ aborted | some i ↦ copy_loop copy_fuel k i ]) e
    ∙ loop_empty 4 k reader none_left

pub length-contents : (d : Driver) → length (contents d) ≡ d.size
length-contents d = length-ring d.size d.head d.kb_buf
