-- ===== src/Syscall.antt =====
-- c/syscall.c: the stubs of the system calls, up to the interrupt. A stub's call of `syscall` leaves
-- the arguments on the stack, and `syscall` pushes their address and the number of the request.
pub mod Enter
use cs415_a.Base.{ℕ, ◌+◌, List, [], ◌∷◌, ◌++◌, false}
use cs415_a.Base.Word.{add32, sub32}
use cs415_a.Kernel.{write_word}
use cs415_a.Dispatch.{Trap, Request}

-- A call of a stub. The last argument of `sysioctl` is the address of its variable arguments.
pub data Stub : Type 0 where
  syscreate : (func stack : ℕ) → Stub
  sysyield sysstop sysgetpid sysgetppid syssigwait : Stub
  sysputs : (str : ℕ) → Stub
  syssend : (dest_pid buffer buffer_len : ℕ) → Stub
  sysrecv : (from_pid buffer buffer_len : ℕ) → Stub
  syssleep : (milliseconds : ℕ) → Stub
  syssighandler : (signal newhandler old_handler : ℕ) → Stub
  syssigreturn : (old_sp : ℕ) → Stub
  syskill : (pid signal : ℕ) → Stub
  sysopen : (major_no : ℕ) → Stub
  sysclose : (fd : ℕ) → Stub
  syswrite sysread : (fd buf buflen : ℕ) → Stub
  sysioctl : (fd cmd ap : ℕ) → Stub

-- the value of the enumeration constant
unfoldable pub request_number : Request → ℕ
request_number Request.time_int = 0
request_number Request.create_req = 1
request_number Request.yield = 2
request_number Request.stop = 3
request_number Request.get_pid = 4
request_number Request.get_p_pid = 5
request_number Request.puts = 6
request_number Request.send_req = 7
request_number Request.recv = 8
request_number Request.sys_timer = 9
request_number Request.sleep_req = 10
request_number Request.sighandler = 11
request_number Request.sigreturn_req = 12
request_number Request.kill = 13
request_number Request.sigwait = 14
request_number Request.open_req = 15
request_number Request.close = 16
request_number Request.write = 17
request_number Request.read = 18
request_number Request.io_ctl = 19

-- The arguments of the call of `syscall`.
unfoldable pub call_of : Stub → Request × List ℕ
call_of (Stub.syscreate func stack) = (Request.create_req, func ∷ stack ∷ [])
call_of Stub.sysyield = (Request.yield, [])
call_of Stub.sysstop = (Request.stop, [])
call_of Stub.sysgetpid = (Request.get_pid, [])
call_of Stub.sysgetppid = (Request.get_p_pid, [])
call_of (Stub.sysputs str) = (Request.puts, str ∷ [])
call_of (Stub.syssend dest_pid buffer buffer_len) =
    (Request.send_req, dest_pid ∷ buffer ∷ buffer_len ∷ [])
call_of (Stub.sysrecv from_pid buffer buffer_len) =
    (Request.recv, from_pid ∷ buffer ∷ buffer_len ∷ [])
call_of (Stub.syssleep milliseconds) = (Request.sleep_req, milliseconds ∷ [])
call_of (Stub.syssighandler signal newhandler old_handler) =
    (Request.sighandler, signal ∷ newhandler ∷ old_handler ∷ [])
call_of (Stub.syssigreturn old_sp) = (Request.sigreturn_req, old_sp ∷ [])
call_of (Stub.syskill pid signal) = (Request.kill, pid ∷ signal ∷ [])
call_of Stub.syssigwait = (Request.sigwait, [])
call_of (Stub.sysopen major_no) = (Request.open_req, major_no ∷ [])
call_of (Stub.sysclose fd) = (Request.close, fd ∷ [])
call_of (Stub.syswrite fd buf buflen) = (Request.write, fd ∷ buf ∷ buflen ∷ [])
call_of (Stub.sysread fd buf buflen) = (Request.read, fd ∷ buf ∷ buflen ∷ [])
call_of (Stub.sysioctl fd cmd ap) = (Request.io_ctl, fd ∷ cmd ∷ ap ∷ [])

-- `contextFrame`: what the interrupt and `pusha` save
pub record ContextFrame : Type 0 where
  pub edi : ℕ
  pub esi : ℕ
  pub ebp : ℕ
  pub esp : ℕ
  pub ebx : ℕ
  pub edx : ℕ
  pub ecx : ℕ
  pub eax : ℕ
  pub iret_eip : ℕ
  pub iret_cs : ℕ
  pub eflags : ℕ

abbrev pub frame_words : ContextFrame → List ℕ
frame_words c =
    c.edi ∷ c.esi ∷ c.ebp ∷ c.esp ∷ c.ebx ∷ c.edx ∷ c.ecx ∷ c.eax ∷ c.iret_eip ∷ c.iret_cs
    ∷ c.eflags ∷ []

-- Words pushed on a stack, the last of the list first; the first is at `a` then.
unfoldable pub push_words : (ℕ → ℕ) → (a : ℕ) → List ℕ → ℕ → ℕ
unfolding write_word
push_words m a [] = m
push_words m a (w ∷ ws) = write_word (push_words m (add32 a 4) ws) a w

-- `syscall` from the call on, for the arguments `args` at `ap`, with the stack pointer `sp` before
-- the two pushes, and the frame that is saved below them.
unfoldable pub syscall :
    (m : ℕ → ℕ) (ap sp : ℕ) → ContextFrame → (call : Request) (args : List ℕ) → Trap
unfolding push_words request_number
syscall m ap sp frame call args =
    let esp = sub32 sp 52 in
    let placed = push_words m ap args in
    let pushed = push_words placed (add32 esp 44) (request_number call ∷ ap ∷ []) in
    record {
      timer = false;
      esp = esp;
      eax = frame.eax;
      memory = push_words pushed esp (frame_words frame);
    }

unfoldable pub trap_of : (m : ℕ → ℕ) (ap sp : ℕ) → ContextFrame → Stub → Trap
unfolding syscall call_of
trap_of m ap sp frame s = syscall m ap sp frame (call_of s).0 (call_of s).1
