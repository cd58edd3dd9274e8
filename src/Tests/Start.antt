-- ===== src/Tests/Start.antt =====
-- The tables and the timer of c/i386.c and c/evec.c, and c/create.c, at concrete states.
use cs415_a.Base.{◌+◌, ◌*◌, ◌≡◌, refl, arith, [], ◌∷◌, Returns, update, ok, some}
use cs415_a.Base.Word.{add32}
use cs415_a.Boot.{Entries, Machine}
use cs415_a.Create.{create, find_pcb, safety_margin, context_size}
use cs415_a.Create.Fresh.{create-Made, Made}
use cs415_a.Heap.{Heap, kmalloc, kmeminit, take_node, list_fuel}
use cs415_a.Kernel.{Kernel, State, read_slot, max_num_process}
use cs415_a.PidMap.{node_size}
use cs415_a.Processor.Segments.{setsegs-Spans, Spans}
use cs415_a.Processor.{initial_gdt, null_segment, Layout, setsegs, Gate, set_evec, initevec}
use cs415_a.Processor.Gates.{initevec-Leads, Leads}
use cs415_a.Queue.{queue_fuel}
use cs415_a.Tests.{kernel, image, table, blank, empty_heap}

abbrev no_gate : Gate
no_gate = record {
  loffset = 0;
  segsel = 0;
  rsvd = 0;
  mbz = 0;
  type = 0;
  dpl = 0;
  present = 0;
  hoffset = 0;
}

-- The system call's gate is not one of the first 48.
initevec-Leads_example :
    let (idt, _) = initevec (λ _ _. no_gate) (λ x. 0x10000 * x) ((λ _. no_gate), []) in
    (idt 80 ≡ no_gate) × Leads (set_evec 80 0x12345 idt 80) 0x12345
initevec-Leads_example =
    initevec-Leads (λ _ _. no_gate) (λ x. 0x10000 * x) (λ _. no_gate) [] 80 80 0x12345 (omega arith)
      (omega arith)

-- The first PCB that is not in use is the seventh.
abbrev room : Heap
unfolding kmeminit
room = kmeminit 0x10000 empty_heap

abbrev with_room : Kernel
with_room = record kernel {
  heap = room;
  pcb_table = update table 7 (record blank { state = State.stopped });
}

abbrev with_stack : Heap
unfolding take_node kmeminit
with_stack = (take_node room 0x10000 8304).1

abbrev with_node : Heap
unfolding take_node kmeminit
with_node = (take_node with_stack 0x12080 32).1

stack_given : kmalloc room (add32 0x2000 (safety_margin + context_size)) ≡ ok (0x10010, with_stack)
unfolding kmalloc kmeminit list_fuel take_node
stack_given = refl

node_given : kmalloc with_stack node_size ≡ ok (0x12090, with_node)
unfolding kmalloc kmeminit list_fuel take_node
node_given = refl

first_free : find_pcb max_num_process 0 with_room.pcb_table ≡ some 7
unfolding find_pcb
first_free = refl

create-Made_example :
    Returns
      (λ (pid, k'). Made image with_room 7 0x3000 0x2000 1 0x10010 (1 ∷ 2 ∷ []) with_node pid k')
      (create image with_room 0x3000 0x2000 1)
unfolding read_slot queue_fuel
create-Made_example =
    create-Made image with_room 7 0x3000 0x2000 1 (1 ∷ 2 ∷ []) 0x10010 with_stack 0x12090 with_node
      (record { cs = omega arith; sysstop = omega arith }) (omega arith) (omega arith) (omega arith)
      stack_given (omega arith) first_free node_given (omega arith) (omega arith) tt tt tt
      (omega arith) (refl, (refl, refl)) ((refl, tt), (tt, tt)) (refl, (refl, tt)) (omega arith)

abbrev no_layout : Layout
no_layout = record {
  gdt_copy = initial_gdt;
  gdt = λ _. null_segment;
  initsp = 0;
  freemem = 0;
  maxaddr = 0;
}

setsegs-Spans_example :
    Spans 0x12345 0x23456 (setsegs (λ to from i. from i) 0x12345 0x23456 no_layout)
setsegs-Spans_example =
    setsegs-Spans (λ to from i. from i) 0x12345 0x23456 no_layout (λ to from i lt. refl)
      (omega arith) (omega arith)

abbrev off : Machine
off = record { kernel = kernel; idt = λ _. no_gate; ports = [] }

abbrev entries : Entries
entries = record {
  system_call = 0x1000;
  timer = 0x2000;
  keyboard = 0x3000;
  root = 0x4000;
  idleproc = 0x5000;
}
