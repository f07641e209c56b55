-- ===== src/Tests/Tables.antt =====
-- The theorem on the descriptor tables, at concrete places.
use so2_joan_erik.Common.{arith}
use so2_joan_erik.Descriptors.{Cpu, Handlers, set_tables}
use so2_joan_erik.Descriptors.Gates.{TablesSet, set_tables-TablesSet}

abbrev entries : Handlers
entries = record {
  keyboard_handler = 0x10100;
  clock_handler = 0x10200;
  page_fault_handler_2 = 0x10300;
  system_call_handler = 0x10400;
  syscall_handler_sysenter = 0x10500;
}

-- Before main.
abbrev blank_cpu : Cpu
blank_cpu = record {
  idt = λ v. record { low_offset = 0; segment_selector = 0; flags = 0; high_offset = 0 };
  gdt = λ i. record {
    limit = 0xFFFF;
    low_base = 0;
    mid_base = 0;
    flags1 = 0;
    flags2 = 0;
    high_base = 0;
  };
  tss = record {
    previous_task_link = 0;
    esp0 = 0;
    ss0 = 0;
    esp1 = 0;
    ss1 = 0;
    esp2 = 0;
    ss2 = 0;
    cr3 = 0;
    eip = 0;
    e_flags = 0;
    eax = 0;
    ecx = 0;
    edx = 0;
    ebx = 0;
    esp = 0;
    ebp = 0;
    esi = 0;
    edi = 0;
    es = 0;
    cs = 0;
    ss = 0;
    ds = 0;
    fs = 0;
    gs = 0;
    ldt_segment_selector = 0;
    debug_trap = 0;
    io_map_base_address = 0;
  };
  idt_reg = record { limit = 0; base = 0 };
  gdt_reg = record { limit = 0; base = 0 };
  task_reg = 0;
  msr = λ r. 0;
}

set_tables-TablesSet_example :
    TablesSet
      (λ t. t)
      0x12340
      entries
      blank_cpu
      (set_tables (λ t. t) 0x20000 0x12340 entries blank_cpu)
set_tables-TablesSet_example =
    set_tables-TablesSet (λ t. t) 0x20000 0x12340 entries blank_cpu (omega arith) (omega arith)
      (omega arith) (omega arith) (omega arith)
