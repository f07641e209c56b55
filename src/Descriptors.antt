-- ===== src/Descriptors.antt =====
-- The descriptor tables: setInterruptHandler, setTrapHandler and setIdt of interrupt.c, setGdt and setTSS
-- of mm.c, with the types of include/types.h.
--
-- The instructions that load a register of the processor are stores to its field here. The addresses of
-- the handlers of entry.S, the linker's places for the tables, and what set_handlers of libzeos.a makes
-- of the IDT are parameters. The padding of the task state segment is left out.
pub mod Gates
use Prim.Native.Nat.{bit_or}
use so2_joan_erik.Common.{ℕ, ◌+◌, ◌-◌, ◌*◌, ◌/◌, ◌%◌, ◌==◌, if◌then◌else◌}
use so2_joan_erik.Task.{task_addr, kernel_stack_size}
use so2_joan_erik.Paging.{num_pag_data}

-- The macros of include/types.h.
abbrev pub high_word : ℕ → ℕ
high_word address = address / 65536 % 65536

abbrev pub low_word : ℕ → ℕ
low_word address = address % 65536

abbrev pub mid_byte : ℕ → ℕ
mid_byte address = address / 65536 % 256

abbrev pub high_byte : ℕ → ℕ
high_byte address = address / 16777216 % 256

pub record Descriptor : Type 0 where
  pub limit : ℕ
  pub low_base : ℕ
  pub mid_base : ℕ
  pub flags1 : ℕ
  pub flags2 : ℕ
  pub high_base : ℕ

pub record Gate : Type 0 where
  pub low_offset : ℕ
  pub segment_selector : ℕ
  pub flags : ℕ
  pub high_offset : ℕ

pub record Tss : Type 0 where
  pub previous_task_link : ℕ
  pub esp0 : ℕ
  pub ss0 : ℕ
  pub esp1 : ℕ
  pub ss1 : ℕ
  pub esp2 : ℕ
  pub ss2 : ℕ
  pub cr3 : ℕ
  pub eip : ℕ
  pub e_flags : ℕ
  pub eax : ℕ
  pub ecx : ℕ
  pub edx : ℕ
  pub ebx : ℕ
  pub esp : ℕ
  pub ebp : ℕ
  pub esi : ℕ
  pub edi : ℕ
  pub es : ℕ
  pub cs : ℕ
  pub ss : ℕ
  pub ds : ℕ
  pub fs : ℕ
  pub gs : ℕ
  pub ldt_segment_selector : ℕ
  pub debug_trap : ℕ
  pub io_map_base_address : ℕ

-- IDTR and GDTR.
pub record Register : Type 0 where
  pub limit : ℕ
  pub base : ℕ

-- The tables, the registers that refer to them, and the model specific registers.
pub record Cpu : Type 0 where
  pub idt : ℕ → Gate
  pub gdt : ℕ → Descriptor
  pub tss : Tss
  pub idt_reg : Register
  pub gdt_reg : Register
  pub task_reg : ℕ
  pub msr : ℕ → ℕ

abbrev pub kernel_cs : ℕ
kernel_cs = 0x10

abbrev pub kernel_ds : ℕ
kernel_ds = 0x18

abbrev pub user_cs : ℕ
user_cs = 0x23

abbrev pub user_ds : ℕ
user_ds = 0x2B

abbrev pub kernel_tss : ℕ
kernel_tss = 0x30

abbrev pub gdt_start : ℕ
gdt_start = 0x901b3

abbrev pub idt_entries : ℕ
idt_entries = 256

abbrev pub initial_eflags : ℕ
initial_eflags = 0x200

-- KERNEL_ESP(&task[1])
abbrev pub initial_esp : ℕ
initial_esp = task_addr 1 + 4 * kernel_stack_size

abbrev pub user_esp : ℕ
user_esp = 0x100000 + num_pag_data * 0x1000 - 16

abbrev pub set_gate : ℕ → Gate → Cpu → Cpu
set_gate vector g c = record c { idt = λ v. if v == vector then g else c.idt v }

unfoldable pub set_interrupt_handler : ℕ → ℕ → ℕ → Cpu → Cpu
set_interrupt_handler vector handler max_accessible_from_pl c =
    let flags = bit_or (max_accessible_from_pl * 8192 % 65536) 0x8E00 in
    set_gate vector
      (record {
        low_offset = low_word handler;
        segment_selector = kernel_cs;
        flags = flags;
        high_offset = high_word handler;
      })
      c

-- The gate is an interrupt gate too.
unfoldable pub set_trap_handler : ℕ → ℕ → ℕ → Cpu → Cpu
set_trap_handler vector handler max_accessible_from_pl c =
    let flags = bit_or (max_accessible_from_pl * 8192 % 65536) 0x8E00 in
    set_gate vector
      (record {
        low_offset = low_word handler;
        segment_selector = kernel_cs;
        flags = flags;
        high_offset = high_word handler;
      })
      c

abbrev pub write_msr : ℕ → ℕ → Cpu → Cpu
write_msr r v c = record c { msr = λ x. if x == r then v else c.msr x }

-- The addresses of the entry points.
pub record Handlers : Type 0 where
  pub keyboard_handler : ℕ
  pub clock_handler : ℕ
  pub page_fault_handler_2 : ℕ
  pub system_call_handler : ℕ
  pub syscall_handler_sysenter : ℕ

abbrev pub Idt : Type 0
Idt = ℕ → Gate

-- `idt` is at `idt_addr`.
unfoldable pub set_idt : (Idt → Idt) → ℕ → Handlers → Cpu → Cpu
set_idt set_handlers idt_addr h c =
    let c1 =
      set_interrupt_handler 33 h.keyboard_handler 0 (record c { idt = set_handlers c.idt }) in
    let c2 = set_interrupt_handler 32 h.clock_handler 0 c1 in
    let c3 = set_interrupt_handler 14 h.page_fault_handler_2 0 c2 in
    let c4 = set_trap_handler 128 h.system_call_handler 3 c3 in
    let c5 = write_msr 0x175 initial_esp (write_msr 0x174 kernel_cs c4) in
    let c6 = write_msr 0x176 h.syscall_handler_sysenter c5 in
    record c6 { idt_reg = record { limit = idt_entries * 8 - 1; base = idt_addr } }

-- `tss` is at `tss_addr`.
unfoldable pub set_gdt : ℕ → Cpu → Cpu
set_gdt tss_addr c =
    let d = c.gdt (kernel_tss / 8) in
    record c {
      gdt = λ i.
          if i == kernel_tss / 8
          then record d {
            low_base = low_word tss_addr;
            mid_base = mid_byte tss_addr;
            high_base = high_byte tss_addr;
          }
          else c.gdt i;
      gdt_reg = record { limit = 256 * 8; base = gdt_start };
    }

unfoldable pub set_tss : Cpu → Cpu
set_tss c = record c {
  tss = record {
    previous_task_link = 0;
    esp0 = initial_esp;
    ss0 = kernel_ds;
    esp1 = 0;
    ss1 = 0;
    esp2 = 0;
    ss2 = 0;
    cr3 = 0;
    eip = 0;
    e_flags = initial_eflags;
    eax = 0;
    ecx = 0;
    edx = 0;
    ebx = 0;
    esp = user_esp;
    ebp = user_esp;
    esi = 0;
    edi = 0;
    es = user_ds;
    cs = user_cs;
    ss = user_ds;
    ds = user_ds;
    fs = 0;
    gs = 0;
    ldt_segment_selector = kernel_tss;
    debug_trap = 0;
    io_map_base_address = 0;
  };
  task_reg = kernel_tss;
}

-- The three calls of main.
unfoldable pub set_tables : (Idt → Idt) → ℕ → ℕ → Handlers → Cpu → Cpu
unfolding set_idt set_gdt set_tss
set_tables set_handlers idt_addr tss_addr h c =
    set_tss (set_idt set_handlers idt_addr h (set_gdt tss_addr c))
