-- ===== src/Dispatch/Sigreturn.antt =====
-- The signal frame: `deliver_signal` of c/signal.c, and the system call SIGRETURN of c/disp.c.
use cs415_a.Base.{ℕ, ◌<◌, ◌^◌, ◌≡◌, ◌∙◌, refl, arith, ==_refl}
use cs415_a.Base.Word.{sub32, add32}
use cs415_a.Kernel.{Kernel, read_word}
use cs415_a.Kernel.Memory.{read-write_word, read-write_word_ne}
use cs415_a.Image.{Image}
use cs415_a.Signal.{deliver, push_frame, frame_size}
use cs415_a.Dispatch.{sigreturn}

module _ (image : Image) (m : ℕ → ℕ) (a handler sp hi irc : ℕ) where
  frame_irc : irc < 2 ^ 32 → read_word (push_frame image m a handler sp hi irc) (add32 a 64) ≡ irc
  unfolding push_frame
  frame_irc h = read-write_word _ (add32 a 64) irc (omega arith) h

  frame_hi : hi < 2 ^ 32 → read_word (push_frame image m a handler sp hi irc) (add32 a 60) ≡ hi
  unfolding push_frame
  frame_hi h =
      read-write_word_ne _ a 60 64 irc (omega arith) (omega arith)
      ∙ read-write_word _ (add32 a 60) hi (omega arith) h

  frame_sp : sp < 2 ^ 32 → read_word (push_frame image m a handler sp hi irc) (add32 a 56) ≡ sp
  unfolding push_frame
  frame_sp h =
      read-write_word_ne _ a 56 64 irc (omega arith) (omega arith)
      ∙ read-write_word_ne _ a 56 60 hi (omega arith) (omega arith)
      ∙ read-write_word _ (add32 a 56) sp (omega arith) h

  frame_handler :
      handler < 2 ^ 32 → read_word (push_frame image m a handler sp hi irc) (add32 a 48) ≡ handler
  unfolding push_frame
  frame_handler h =
      read-write_word_ne _ a 48 64 irc (omega arith) (omega arith)
      ∙ read-write_word_ne _ a 48 60 hi (omega arith) (omega arith)
      ∙ read-write_word_ne _ a 48 56 sp (omega arith) (omega arith)
      ∙ read-write_word_ne _ a 48 52 sp (omega arith) (omega arith)
      ∙ read-write_word _ (add32 a 48) handler (omega arith) h

-- The registers and results of the process are 32-bit words.
pub record IsWords (k : Kernel) (p s : ℕ) : Type 0 where
  pub esp : (k.pcb_table p).esp < 2 ^ 32
  pub hi_sig : (k.pcb_table p).hi_sig < 2 ^ 32
  pub irc : (k.pcb_table p).irc < 2 ^ 32
  pub handler : (k.pcb_table p).sig_handler s < 2 ^ 32

-- The stack pointer, the mask, the result and the handler of `s` of the process are 32-bit words.
-- After the delivery of the signal `s` the new stack holds, as arguments of the trampoline, the
-- handler installed for `s` and the old stack pointer. SIGRETURN with that pointer gives the
-- process back the stack pointer, the signal mask and the result it had before the delivery.
pub sigreturn-deliver :
    (image : Image) (k : Kernel) (p s : ℕ)
    → IsWords k p s
    → let k1 = deliver image k p s in
      let sp = (k1.pcb_table p).esp in
      let k2 = sigreturn k1 p (k.pcb_table p).esp in
      (read_word k1.memory (add32 sp 48) ≡ (k.pcb_table p).sig_handler s)
      × (read_word k1.memory (add32 sp 56) ≡ (k.pcb_table p).esp)
      × ((k2.pcb_table p).esp ≡ (k.pcb_table p).esp)
      × ((k2.pcb_table p).hi_sig ≡ (k.pcb_table p).hi_sig)
      × ((k2.pcb_table p).irc ≡ (k.pcb_table p).irc)
unfolding deliver sigreturn
sigreturn-deliver image k p s w =
    let q = k.pcb_table p in
    let a = sub32 q.esp frame_size in
    let h = q.sig_handler s in
    (
      rw ==_refl (frame_handler image k.memory a h q.esp q.hi_sig q.irc w.handler),
      rw ==_refl (frame_sp image k.memory a h q.esp q.hi_sig q.irc w.esp),
      rw ==_refl refl,
      rw ==_refl (frame_hi image k.memory a h q.esp q.hi_sig q.irc w.hi_sig),
      rw ==_refl (frame_irc image k.memory a h q.esp q.hi_sig q.irc w.irc),
    )
