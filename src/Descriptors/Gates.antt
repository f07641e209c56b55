-- ===== src/Descriptors/Gates.antt =====
-- What the processor reads from the tables.
use so2_joan_erik.Common.{ℕ, ◌+◌, ◌-◌, ◌*◌, ◌/◌, ◌%◌, ◌<◌, ◌≡◌, ◌≢◌, refl, arith, ne→==}
use so2_joan_erik.Descriptors.{
  Cpu, Idt, Gate, Descriptor, Handlers, kernel_cs, set_interrupt_handler, set_trap_handler, set_idt,
  set_gdt, set_tss, set_tables,
}

-- The address that an interrupt through the gate goes to, and who may call it with `int`.
abbrev pub target : Gate → ℕ
target g = g.low_offset + 65536 * g.high_offset

abbrev pub privilege : Gate → ℕ
privilege g = g.flags / 8192 % 4

-- A gate of the processor that is present, of 32 bits, and closed to further interrupts.
pub record Enters (g : Gate) (handler level : ℕ) : Type 0 where
  pub address : target g ≡ handler
  pub segment : g.segment_selector ≡ kernel_cs
  pub level_of : privilege g ≡ level
  pub present : g.flags / 32768 ≡ 1
  pub kind : g.flags / 256 % 32 ≡ 14

-- The base address of a segment.
abbrev pub base_of : Descriptor → ℕ
base_of d = d.low_base + 65536 * d.mid_base + 16777216 * d.high_base

halves : (a : ℕ) → a < 4294967296 → a % 65536 + 65536 * (a / 65536 % 65536) ≡ a
halves a h = omega (arith, h)

bytes :
    (a : ℕ)
    → a < 4294967296
    → a % 65536 + 65536 * (a / 65536 % 256) + 16777216 * (a / 16777216 % 256) ≡ a
bytes a h = omega (arith, h)

-- The tables after main has set them.
pub record TablesSet (set_handlers : Idt → Idt) (tss_addr : ℕ) (h : Handlers) (c c' : Cpu)
    : Type 0 where
  pub page_fault : Enters (c'.idt 14) h.page_fault_handler_2 0
  pub clock : Enters (c'.idt 32) h.clock_handler 0
  pub keyboard : Enters (c'.idt 33) h.keyboard_handler 0
  -- The one gate of these that a user's program may call.
  pub system_call : Enters (c'.idt 128) h.system_call_handler 3
  pub other_gates : (v : ℕ) → v ≢ 14 → v ≢ 32 → v ≢ 33 → v ≢ 128 → c'.idt v ≡ set_handlers c.idt v
  -- The whole table is in the register's limit.
  pub limit : c'.idt_reg.limit ≡ 8 * 256 - 1
  -- The fast system call enters the same code segment, on the stack that the traps use.
  pub fast_segment : c'.msr 0x174 ≡ (c'.idt 128).segment_selector
  pub fast_stack : c'.msr 0x175 ≡ c'.tss.esp0
  pub fast_entry : c'.msr 0x176 ≡ h.syscall_handler_sysenter
  -- SYSENTER takes the segment behind that of the code for the stack.
  pub stack_segment : c'.tss.ss0 ≡ c'.msr 0x174 + 8
  -- The task register selects the task state segment; the other segments are as they were.
  pub task_segment : base_of (c'.gdt (c'.task_reg / 8)) ≡ tss_addr
  pub other_segments : (i : ℕ) → i ≢ c'.task_reg / 8 → c'.gdt i ≡ c.gdt i

-- With addresses of 32 bits, and whatever set_handlers makes of the table: after the three calls of main
-- four gates lead to their handlers, in the kernel's code segment and closed to interrupts, and of these
-- a user may call the system call's alone; every other gate is as set_handlers made it; both ways into
-- the kernel take the same segments and the same stack; and the task register selects the segment that
-- begins at the task state segment.
pub set_tables-TablesSet :
    (set_handlers : Idt → Idt) (idt_addr tss_addr : ℕ) (h : Handlers) (c : Cpu)
    → h.keyboard_handler < 4294967296
    → h.clock_handler < 4294967296
    → h.page_fault_handler_2 < 4294967296
    → h.system_call_handler < 4294967296
    → tss_addr < 4294967296
    → TablesSet set_handlers tss_addr h c (set_tables set_handlers idt_addr tss_addr h c)
unfolding set_tables set_idt set_gdt set_tss set_interrupt_handler set_trap_handler
set_tables-TablesSet set_handlers idt_addr tss_addr h c k t p s a = record {
  page_fault = record {
    address = halves h.page_fault_handler_2 p;
    segment = refl;
    level_of = refl;
    present = refl;
    kind = refl;
  };
  clock = record {
    address = halves h.clock_handler t;
    segment = refl;
    level_of = refl;
    present = refl;
    kind = refl;
  };
  keyboard = record {
    address = halves h.keyboard_handler k;
    segment = refl;
    level_of = refl;
    present = refl;
    kind = refl;
  };
  system_call = record {
    address = halves h.system_call_handler s;
    segment = refl;
    level_of = refl;
    present = refl;
    kind = refl;
  };
  other_gates = λ v n14 n32 n33 n128. rw (ne→== n14, ne→== n32, ne→== n33, ne→== n128) refl;
  limit = refl;
  fast_segment = refl;
  fast_stack = refl;
  fast_entry = refl;
  stack_segment = refl;
  task_segment = bytes tss_addr a;
  other_segments = λ i ne. rw (ne→== ne) refl;
}
