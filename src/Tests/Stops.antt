-- ===== src/Tests/Stops.antt =====
-- `cleanup` of c/disp.c when two processes wait to send and one to receive.
use cs415_a.Base.{some, ◌==◌, if◌then◌else◌}
use cs415_a.Kernel.{Kernel}
use cs415_a.PidMap.{leaf, node}
use cs415_a.Tests.{kernel, blank}
use cs415_a.Tests.Frees.{between}

-- The stack of the process and its node in the map are the two allocated blocks.
abbrev stopping : Kernel
stopping = record kernel {
  ready_queue = some 1;
  pcb_table = λ i.
      if i == 7
      then record blank { pid = 42; stack = 0x1040; senders = some 8; receivers = some 9 }
      else if i == 8
      then record blank { next = some 10 }
      else blank;
  pid_map = node 0x2010 42 7 leaf leaf 1;
  heap = between;
}
