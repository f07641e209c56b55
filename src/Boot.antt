-- ===== src/Boot.antt =====
-- The start of the scheduler: init_sched, init_idle and init_task1 of sched.c, as main of system.c
-- calls them.
pub mod Queues
pub mod Idle
pub mod Ready
pub mod First
use so2_joan_erik.Common.{
  ℕ, zero, suc, ◌+◌, ◌-◌, ◌*◌, true, ◌==◌, if◌then◌else◌, for_up, ℤ, pos, negsuc,
}
use so2_joan_erik.Links.{Links, null, init_list_head, list_del, list_first}
use so2_joan_erik.Task.{
  Task, st_ready, nr_tasks, num_sems, kernel_stack_size, default_quantum_ticks, task_addr, fills_of,
  wait_list_of, readyqueue, freequeue, blocked, read_blocked, list_head_to_task_struct,
}
use so2_joan_erik.Sched.{Sched, update_process_state_rr, get_quantum, set_quantum}
use so2_joan_erik.Kernel.{Kernel}
use so2_joan_erik.Directories.{Directories, set_at, allocate_heap}
use so2_joan_erik.Machine.{Machine, with_sched, set_task, get_dir}
use so2_joan_erik.Paging.{give_dir, set_user_pages, init_mm}

abbrev pub links_of : Machine → Links
links_of m = m.kernel.sched.links

abbrev pub with_links : Machine → Links → Machine
with_links m l = let s = m.kernel.sched in with_sched m (record s { links = l })

unfoldable pub init_heap : Directories → Directories
init_heap = for_up nr_tasks 0 λ i d. record d { heap_zones = set_at d.heap_zones i (pos 0) }

-- The four INIT_LIST_HEAD of init_sched.
unfoldable pub init_heads : Links → Links
init_heads l =
    init_list_head
      (init_list_head (init_list_head (init_list_head l blocked) read_blocked) freequeue) readyqueue

-- `semaphores[i].free = 1`
unfoldable pub free_sem : ℕ → Kernel → Kernel
free_sem i k =
    let sem = k.semaphores i in
    record k { semaphores = λ j. if j == i then record sem { free = true } else k.semaphores j }

-- `task[i].task.PID = -1; update_process_state_rr(&(task[i].task), &freequeue);`
unfoldable pub init_slot : ℕ → Machine → Machine
init_slot i m =
    let t = m.kernel.sched.tasks (task_addr i) in
    let m' = set_task m (task_addr i) (record t { pid = negsuc 0 }) in
    with_sched m' (update_process_state_rr m'.kernel.sched (task_addr i) freequeue)

unfoldable pub init_sched : Machine → Machine
init_sched m =
    let headed = with_links m (init_heads (links_of m)) in
    let heaps = record headed { dirs = init_heap headed.dirs } in
    for_up nr_tasks 0 init_slot (record heaps { kernel = for_up num_sems 0 free_sem heaps.kernel })

-- `allocate_heap(t)`, as a statement.
unfoldable pub give_heap : ℕ → Machine → Machine
give_heap t m =
    let r = allocate_heap m.dirs (m.kernel.sched.tasks t) in
    let m' = record m { dirs = r.1 } in set_task m' t r.2

-- The two list heads that a new process starts with.
abbrev pub init_family : Links → ℕ → Links
init_family l t = init_list_head (init_list_head l (fills_of t)) (wait_list_of t)

-- init_idle once it has found the list head `e` of the descriptor `ct`; `cpu_idle` is the address of
-- that function.
unfoldable pub idle_from : ℕ → ℕ → ℕ → Machine → Machine
idle_from cpu_idle e ct m =
    let out = with_links m (init_family (list_del (links_of m) e) ct) in
    let t = out.kernel.sched.tasks ct in
    let named = set_task out ct (record t {
      pid = pos 0;
      pending_unblocks = pos 0;
      current_state = st_ready;
      quantum = pos 0;
    }) in
    let given = give_dir ct named in
    let u = given.kernel.sched.tasks ct in
    let stacked = set_task given ct (record u {
      stack = λ i.
          if i == kernel_stack_size - 1
          then cpu_idle
          else if i == kernel_stack_size - 2
          then 0
          else u.stack i;
      k_esp = ct + 4 * (kernel_stack_size - 2);
    }) in
    let s = stacked.kernel.sched in with_sched stacked (record s { idle_task = ct })

unfoldable pub init_idle : ℕ → Machine → Machine
init_idle cpu_idle m =
    let e = list_first (links_of m) freequeue in idle_from cpu_idle e (list_head_to_task_struct e) m

-- init_task1 for the descriptor `ct`: its queue and its family first, ...
unfoldable pub task1_chosen : ℕ → Machine → Machine
task1_chosen ct m =
    let t = m.kernel.sched.tasks ct in
    let named = set_task m ct (record t { pid = pos 1; pending_unblocks = pos 0 }) in
    let chosen = with_sched named (update_process_state_rr named.kernel.sched ct null) in
    with_links chosen (init_family (links_of chosen) ct)

-- ... then its quantum, its memory and its stack.
unfoldable pub task1_equipped : ℕ → Machine → Machine
task1_equipped ct m =
    let timed = with_sched m (set_quantum m.kernel.sched ct (pos default_quantum_ticks)) in
    let s = timed.kernel.sched in
    let ticking = with_sched timed (record s { tick_counter = get_quantum s ct }) in
    let paged = set_user_pages (give_heap ct (give_dir ct ticking)) ct in
    let s' = paged.kernel.sched in
    with_sched paged (record s' {
      tss_esp0 = ct + 4 * kernel_stack_size;
      msr_esp = ct + 4 * kernel_stack_size;
      cr3 = get_dir paged ct;
      task1 = ct;
    })

unfoldable pub task1_from : ℕ → Machine → Machine
task1_from ct m = task1_equipped ct (task1_chosen ct m)

unfoldable pub init_task1 : Machine → Machine
init_task1 m = task1_from (list_head_to_task_struct (list_first (links_of m) freequeue)) m

-- The calls of main, and the return to user mode: the next trap uses the stack that the TSS names,
-- so the task of that stack is the current one from then on.
unfoldable pub boot : ℕ → Machine → Machine
boot cpu_idle m =
    let started = init_task1 (init_idle cpu_idle (init_sched (init_mm m))) in
    let s = started.kernel.sched in with_sched started (record s { current = s.task1 })
