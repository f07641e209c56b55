-- ===== src/Sched/Registers.antt =====
-- The registers that a task runs with: its page directory, and the kernel stack of its traps.
use so2_joan_erik.Common.{◌+◌, ◌*◌, ◌≡◌, ap, sym, ◌∙◌}
use so2_joan_erik.Task.{kernel_stack_size}
use so2_joan_erik.Sched.{Sched, sched_next_rr}
use so2_joan_erik.Sched.Queues.{Contents}
use so2_joan_erik.Sched.Invariant.{Inv}
use so2_joan_erik.Sched.RoundRobin.{Runs, Scheduled, sched_next_rr-Scheduled}

-- The machine holds the directory of the current task, and the top of its kernel stack for
-- interrupts (in the TSS) and for sysenter (in MSR 0x175).
pub record Loaded (s : Sched) : Type 0 where
  pub directory : s.cr3 ≡ (s.tasks s.current).dir_pages_base_addr
  pub interrupts : s.tss_esp0 ≡ s.current + 4 * kernel_stack_size
  pub sysenter : s.msr_esp ≡ s.current + 4 * kernel_stack_size

-- On queues as `Inv` says, for a caller as `Runs` says, on a machine that holds the directory and the
-- stack of its current task: the oldest ready process, or the idle task if there is none, becomes
-- current and runs with its own quantum; the machine holds its directory, and its kernel stack for
-- interrupts and for sysenter; and a process that was running goes to the end of the ready queue.
pub sched_next_rr-Loaded :
    {s : Sched} {q : Contents}
    → Inv s q
    → Runs s q
    → Loaded s
    → Scheduled s (sched_next_rr s) q × Loaded (sched_next_rr s)
sched_next_rr-Loaded {s} i r l =
    let d : Scheduled s (sched_next_rr s) _ = sched_next_rr-Scheduled i r in
    let top = ap (λ t. t + 4 * kernel_stack_size) (sym d.next.current) in
    (
      d,
      record {
        directory =
            d.next.cr3 l.directory
            ∙ ap (λ t. (s.tasks t).dir_pages_base_addr) (sym d.next.current)
            ∙ sym (d.next.dirs (sched_next_rr s).current);
        interrupts = d.next.stack l.interrupts ∙ top;
        sysenter = d.next.msr l.sysenter ∙ top;
      },
    )
