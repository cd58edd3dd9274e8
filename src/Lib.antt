-- ===== src/Lib.antt =====
-- The Xeros kernel: processes, their queues, messages, signals, sleeping, memory and a keyboard
-- driver.
--
-- The dispatcher (c/disp.c) takes the first process of the ready queue, delivers its signal, runs
-- it until it traps, and serves the request by one of the other parts: each changes the PCB table
-- and the queues, and either makes the process ready again or leaves it blocked. The timer's
-- request moves the sleepers whose time has come to the ready queue; the keyboard's interrupt
-- feeds the process that reads.
--
-- Files and what they model:
-- - Base: results of a run, Boolean tests, 32-bit words and masks
-- - Heap: kmeminit, kmalloc and kfree of c/mem.c; a header is found by its address, which is a
--   number. FreeList is the free list as a list of blocks, Take and Took what taking a block
--   does to it, Alloc and Malloc are about kmalloc, Init about kmeminit. Segment, Place, Insert,
--   Join, JoinLow, Free, Release, Allotted, Outcome and Reclaim are about kfree, Stale and Torn
--   about a join that leaves a stale link
-- - PidMap: the AVL tree of c/disp.c from PIDs to indices of PCBs; a node is a constructor with
--   the address of its memory. Order has the search order, Balance the heights,
--   Grow the insertion, Remove and Delete the deletion, Rotate the right rotation
-- - Kernel: the PCB (h/xeroskernel.h) and the globals; a pointer to a PCB is its index, a
--   pointer to such a pointer a `Slot`. Slots and Memory have the laws of reading after writing
-- - Queue: next and ready of c/disp.c, and the queues of c/msg.c. Chain is a queue as a list;
--   Ready, Remove and Rest are about the operations
-- - Sleep: tick and sleep of c/sleep.c. Times is the list with absolute times; Insert, Wake, Tick,
--   Fault and Ports are about the operations
-- - Msg: send and receive of c/msg.c, with _bcopy of c/startup.S. Transfer, Meet, Block, Send
--   and Receive are about the copy, two processes that meet, one that blocks, and the calls
-- - Signal: c/signal.c, with zeroRegisters of c/create.c; Priority is about the delivery
-- - Keyboard: c/kbd.c and h/kbd.h. Icu is enable_irq of c/i386.c, Driver the circular buffer,
--   Scan the translation of scan codes, Calls the calls and the interrupt routine; Ring, Copy
--   and Read are about them
-- - Device: c/di_calls.c, with the device table that c/init.c fills. Open is about di_open and
--   di_close
-- - Create: c/create.c, and init_pcb_table of c/disp.c. Pid is about the search for a PID,
--   Start, Frame and Fresh about create
-- - Console: kbmputc of c/kprintf.c, on the memory and the ports of the display. Text is the
--   screen as 2000 characters; Print, Tab and Underrun are about kbmputc
-- - Processor: c/evec.c, and c/i386.c but enable_irq. Gates, Timer and Segments are about them
-- - Boot: initproc and init_keyboard of c/init.c, with initSyscall and enableTimerInterrupt of
--   c/ctsw.c. Heap, First and Ready are about the allocations, the first two processes, and the
--   state at the end
-- - Syscall: the stubs of c/syscall.c
-- - SelfTest: the tests of c/init.c that the kernel runs on its memory manager, on the map of the
--   PIDs (Pids) and on the sleep list (Sleepers). Lists is that of the free list; Runs, Places, Low
--   and Kmalloc are about that of kmalloc
-- - Dispatch: the switch and the loop of c/disp.c, with contextswitch of c/ctsw.c as the list of
--   the traps that processes make. Sigreturn and Choose are about them; Timer is
--   about SYS_TIMER; Links, Turn and Rounds are about the loop when processes yield; Unblock,
--   Release, Shut and Cleanup are about cleanup
-- - Tests: the theorems at concrete states; Blocks has kmalloc, Frees kfree, SelfRuns the kernel's
--   own tests, Calls messages and the loop, Output the screen, Start the tables, the timer, create
--   and initproc, Receive has receive, Loop the devices and a tick, Stops a process that stops
--
-- The C functions keep their names, and those that return by an error path or not at all give a
-- `Run`: a result, a call of abort, a NULL pointer gone through, or a loop that has used its
-- rounds up. A word is a number below 2 ^ 32, an int the word of its two's complement. The loops
-- over queues get 257 rounds, one more than there are PCBs; that over the free list 262145, one
-- more than there are places for a header below FREEMEM_END; the search for a PID 258; the copying
-- of the keyboard buffer 5, one more than it has characters; the tabulator 8, the places from one
-- stop to the next.
--
-- Not modelled: the boot loader (boot), the C library (lib), of which memset and blkcopy are
-- parameters, kprintf, which calls it, the programs in c/user.c, the tests in c/init.c that run in
-- processes, the assembler files but _bcopy, and functions that only print. The model has no
-- interrupt inside the kernel, which runs with interrupts off; a call of kmalloc or kfree that a
-- process makes itself, which the timer can interrupt, is not in it. It takes the addresses of the
-- kernel's image and its code segment as parameters (`Image`).
pub mod Base
pub mod Heap
pub mod PidMap
pub mod Keyboard
pub mod Kernel
pub mod Queue
pub mod Sleep
pub mod Image
pub mod Msg
pub mod Signal
pub mod Device
pub mod Console
pub mod Processor
pub mod Create
pub mod Dispatch
pub mod Boot
pub mod SelfTest
pub mod Syscall
mod Tests
