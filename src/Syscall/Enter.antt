-- ===== src/Syscall/Enter.antt =====
-- From a stub of c/syscall.c to the dispatcher of c/disp.c.
use mathlib.Core.Path.{subst}
use cs415_a.Base.{
  ℕ, ◌+◌, ◌-◌, ◌*◌, ◌^◌, ◌<◌, ◌≤◌, ◌≡◌, ◌∙◌, refl, sym, ap, arith, false, ==_refl, some, List, [],
  ◌∷◌, length,
}
use cs415_a.Base.Word.{add32, sub32}
use cs415_a.Kernel.{Kernel, read_word, write_word, arg}
use cs415_a.Kernel.Memory.{read-write_word, read-write_word_ne}
use cs415_a.Dispatch.{Request, request_of, enter}
use cs415_a.Syscall.{
  Stub, ContextFrame, call_of, frame_words, push_words, request_number, syscall, trap_of,
}

-- The words stand in memory from the address `a` on.
abbrev pub Holds : (ℕ → ℕ) → (a : ℕ) → List ℕ → Type 0
Holds m a [] = Unit
Holds m a (w ∷ ws) = (read_word m a ≡ w) × Holds m (add32 a 4) ws

abbrev pub AllWords : List ℕ → Type 0
AllWords [] = Unit
AllWords (w ∷ ws) = (w < 2 ^ 32) × AllWords ws

-- A write below the words, `d` bytes away.
read_above :
    (m : ℕ → ℕ) (a b d v : ℕ)
    → a < 2 ^ 32
    → b ≡ add32 a d
    → 4 ≤ d
    → d + 4 ≤ 2 ^ 32
    → read_word (write_word m a v) b ≡ read_word m b
read_above m a b d v small e lo hi =
    let base : add32 b 0 ≡ b = omega arith in
    let there : add32 b (2 ^ 32 - d) ≡ a = omega arith in
    let kept = read-write_word_ne m b 0 (2 ^ 32 - d) v (omega arith) (omega arith) in
    rw (base, there) at kept

Holds-write_word :
    (m : ℕ → ℕ) (a b d v : ℕ) (ws : List ℕ)
    → a < 2 ^ 32
    → b ≡ add32 a d
    → 4 ≤ d
    → d + 4 * length ws ≤ 2 ^ 32
    → Holds m b ws
    → Holds (write_word m a v) b ws
Holds-write_word m a b d v [] small e lo hi h = tt
Holds-write_word m a b d v (w ∷ ws) small e lo hi h = (
  read_above m a b d v small e lo (omega arith) ∙ h.0,
  Holds-write_word m a (add32 b 4) (d + 4) v ws small (omega arith) (omega arith) (omega arith) h.1,
)

Holds-push_words :
    (m : ℕ → ℕ) (a b d : ℕ) (vs ws : List ℕ)
    → a < 2 ^ 32
    → b ≡ add32 a d
    → 4 * length vs ≤ d
    → d + 4 * length ws ≤ 2 ^ 32
    → Holds m b ws
    → Holds (push_words m a vs) b ws
unfolding push_words
Holds-push_words m a b d [] ws small e lo hi h = h
Holds-push_words m a b d (v ∷ vs) ws small e lo hi h =
    Holds-write_word (push_words m (add32 a 4) vs) a b d v ws small e (omega arith) hi (
      Holds-push_words m (add32 a 4) b (d - 4) vs ws (omega arith) (omega arith) (omega arith)
        (omega arith) h)

push_words-Holds :
    (m : ℕ → ℕ) (a : ℕ) (ws : List ℕ)
    → a < 2 ^ 32
    → 4 * length ws ≤ 2 ^ 32
    → AllWords ws
    → Holds (push_words m a ws) a ws
unfolding push_words
push_words-Holds m a [] small le h = tt
push_words-Holds m a (w ∷ ws) small le h = (
  read-write_word (push_words m (add32 a 4) ws) a w small h.0,
  Holds-write_word (push_words m (add32 a 4) ws) a (add32 a 4) 4 w ws small refl (omega arith)
      (omega arith) (push_words-Holds m (add32 a 4) ws (omega arith) (omega arith) h.1),
)

-- The arguments from the `n`-th on that `va_arg` gives the dispatcher.
abbrev pub Arguments : Kernel → (p n : ℕ) → List ℕ → Type 0
Arguments k p n [] = Unit
Arguments k p n (w ∷ ws) = (arg k p n ≡ w) × Arguments k p (n + 1) ws

Arguments-of_Holds :
    (k : Kernel) (p n : ℕ) (ws : List ℕ)
    → Holds k.memory (add32 (k.pcb_table p).iargs (4 * n)) ws
    → Arguments k p n ws
unfolding arg
Arguments-of_Holds k p n [] h = tt
Arguments-of_Holds k p n (w ∷ ws) h =
    let next : add32 (add32 (k.pcb_table p).iargs (4 * n)) 4
        ≡ add32 (k.pcb_table p).iargs (4 * (n + 1)) =
      omega arith in
    (h.0, Arguments-of_Holds k p (n + 1) ws (rw next at h.1))

request_of-request_number : (r : Request) → request_of (request_number r) ≡ some r
unfolding request_of request_number
request_of-request_number Request.time_int = refl
request_of-request_number Request.create_req = refl
request_of-request_number Request.yield = refl
request_of-request_number Request.stop = refl
request_of-request_number Request.get_pid = refl
request_of-request_number Request.get_p_pid = refl
request_of-request_number Request.puts = refl
request_of-request_number Request.send_req = refl
request_of-request_number Request.recv = refl
request_of-request_number Request.sys_timer = refl
request_of-request_number Request.sleep_req = refl
request_of-request_number Request.sighandler = refl
request_of-request_number Request.sigreturn_req = refl
request_of-request_number Request.kill = refl
request_of-request_number Request.sigwait = refl
request_of-request_number Request.open_req = refl
request_of-request_number Request.close = refl
request_of-request_number Request.write = refl
request_of-request_number Request.read = refl
request_of-request_number Request.io_ctl = refl

request_number_lt : (r : Request) → request_number r < 2 ^ 32
unfolding request_number
request_number_lt r = ground arith

-- A trap whose memory holds the request's number and the address `va` behind the frame.
enter_lem :
    (k : Kernel) (p esp eax va : ℕ) (m : ℕ → ℕ) (call : Request) (args : List ℕ)
    → va < 2 ^ 32
    → Holds m (add32 esp 44) (request_number call ∷ va ∷ [])
    → Holds m va args
    → let (request, k') = enter k p (record { timer = false; esp = esp; eax = eax; memory = m }) in
      (request ≡ some call) × Arguments k' p 0 args
unfolding enter
enter_lem k p esp eax va m call args small pair h =
    let k' = (enter k p (record { timer = false; esp = esp; eax = eax; memory = m })).1 in
    let fourth : add32 (add32 esp 44) 4 ≡ add32 esp 48 = omega arith in
    let second : read_word m (add32 esp 48) ≡ va = rw fourth at pair.1.0 in
    let here : add32 (k'.pcb_table p).iargs (4 * 0) ≡ va = rw (==_refl p) (omega (arith, second)) in
    (
      ap request_of pair.0 ∙ request_of-request_number call,
      Arguments-of_Holds k' p 0 args (subst (λ x. Holds m x args) (sym here) h),
    )

module _ (m : ℕ → ℕ) (va sp d : ℕ) (frame : ContextFrame) (call : Request) (args : List ℕ)
    (at : va ≡ add32 sp d) (lt : sp < 2 ^ 32) (words : AllWords args)
    (room : d + 4 * length args + 52 ≤ 2 ^ 32) where
  args-Holds : Holds (syscall m va sp frame call args).memory va args
  unfolding syscall
  args-Holds =
      let esp = sub32 sp 52 in
      let placed = push_words m va args in
      let pair = request_number call ∷ va ∷ [] in
      Holds-push_words (push_words placed (add32 esp 44) pair) esp va (d + 52) (frame_words frame)
        args (omega arith) (omega arith) (omega arith) (omega arith)
        (Holds-push_words placed (add32 esp 44) va (d + 8) pair args (omega arith) (omega arith)
          (omega arith) (omega arith)
          (push_words-Holds m va args (omega arith) (omega arith) words))

  pair-Holds :
      Holds
        (syscall m va sp frame call args).memory
        (add32 (sub32 sp 52) 44)
        (request_number call ∷ va ∷ [])
  unfolding syscall
  pair-Holds =
      let esp = sub32 sp 52 in
      let placed = push_words m va args in
      let pair = request_number call ∷ va ∷ [] in
      Holds-push_words (push_words placed (add32 esp 44) pair) esp (add32 esp 44) 44
        (frame_words frame) pair (omega arith) refl (omega arith) (omega arith)
        (push_words-Holds placed (add32 esp 44) pair (omega arith) (omega arith)
          (request_number_lt call, (omega arith, tt)))

  pub enter-syscall :
      (k : Kernel) (p : ℕ)
      → let (request, k') = enter k p (syscall m va sp frame call args) in
        (request ≡ some call) × Arguments k' p 0 args
  unfolding syscall
  enter-syscall k p =
      enter_lem k p (sub32 sp 52) frame.eax va (syscall m va sp frame call args).memory call args
        (omega arith) pair-Holds args-Holds

-- The arguments of a stub are 32-bit words, and stand on the stack from the address `ap`, `d` bytes
-- above the stack pointer, without reaching round to the 52 bytes below it. Then the dispatcher
-- gets the request of the stub, and each of its arguments in order by `va_arg`.
pub enter-trap_of :
    (k : Kernel) (p : ℕ) (m : ℕ → ℕ) (ap sp d : ℕ) (frame : ContextFrame) (s : Stub)
    → ap ≡ add32 sp d
    → sp < 2 ^ 32
    → AllWords (call_of s).1
    → d + 4 * length (call_of s).1 + 52 ≤ 2 ^ 32
    → let (request, k') = enter k p (trap_of m ap sp frame s) in
      (request ≡ some (call_of s).0) × Arguments k' p 0 (call_of s).1
unfolding trap_of
enter-trap_of k p m ap sp d frame s at lt words room =
    enter-syscall m ap sp d frame (call_of s).0 (call_of s).1 at lt words room k p
