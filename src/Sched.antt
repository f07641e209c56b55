-- ===== src/Sched.antt =====
-- The scheduler: sched.c.
--
-- `Sched` holds the globals that the scheduler works on. `current` is what the function `current()`
-- reads off the stack pointer: the task whose kernel stack is in use. `task_switch` changes stacks,
-- so in the model it changes `current`.
pub mod Queues
pub mod Invariant
pub mod Moves
pub mod Unchanged
pub mod Dispatch
pub mod Spared
pub mod Alike
pub mod RoundRobin
pub mod Registers
pub mod Cycle
use so2_joan_erik.Common.{
  ℕ, zero, suc, ◌+◌, ◌*◌, ◌==◌, Bool, true, false, ◌&&◌, not, ℤ, pos, negsuc, ◌-ℤ◌, is_neg, is_pos,
  eqb_ℤ, leb_ℤ, if◌then◌else◌,
}
use so2_joan_erik.Links.{
  Links, null, init_list_head, list_add_tail, list_del, list_empty, list_first,
}
use so2_joan_erik.Task.{
  State, st_run, st_free, st_ready, st_blocked, st_readblocked, is_run, Task, nr_tasks,
  default_quantum_ticks, kernel_stack_size, task_addr, list_of, fills_of, wait_list_of, readyqueue,
  freequeue, blocked, read_blocked, list_head_to_task_struct,
}

pub record Sched : Type 0 where
  pub links : Links
  pub tasks : ℕ → Task
  pub current : ℕ
  pub idle_task : ℕ
  pub task1 : ℕ
  pub tick_counter : ℤ
  -- The stack for traps (in the TSS and in MSR 0x175), and the page directory in use.
  pub tss_esp0 : ℕ
  pub msr_esp : ℕ
  pub cr3 : ℕ

abbrev pub update_task : (ℕ → Task) → ℕ → Task → ℕ → Task
update_task f t v u = if u == t then v else f u

-- `t->current_state = st`
abbrev pub set_state : Sched → ℕ → State → Sched
set_state s t st = record s {
  tasks = update_task s.tasks t (record (s.tasks t) { current_state = st });
}

abbrev pub set_links : Sched → Links → Sched
set_links s m = record s { links = m }

unfoldable pub get_quantum : Sched → ℕ → ℤ
get_quantum s t = (s.tasks t).quantum

unfoldable pub set_quantum : Sched → ℕ → ℤ → Sched
set_quantum s t new_quantum = record s {
  tasks = update_task s.tasks t (record (s.tasks t) { quantum = new_quantum });
}

-- The state that the queue `dest` gives, if it is one of the four queues.
unfoldable pub state_for : ℕ → State → State
state_for dest old =
    if dest == readyqueue
    then st_ready
    else if dest == blocked
    then st_blocked
    else if dest == read_blocked
    then st_readblocked
    else if dest == freequeue
    then st_free
    else old

-- The integrity check: a task with a negative PID goes to the free queue.
unfoldable pub free_task : Sched → ℕ → Sched
free_task s t = set_links (set_state s t st_free) (list_add_tail s.links (list_of t) freequeue)

-- A process that is not running leaves the queue that it is in.
unfoldable pub unlink : Sched → ℕ → Sched
unlink s t =
    if is_pos (s.tasks t).pid && not (is_run (s.tasks t).current_state)
    then set_links s (list_del s.links (list_of t))
    else s

-- The task gets the state of `dest`, and its place there unless it is the idle task.
unfoldable pub place : Sched → ℕ → ℕ → Sched
unfolding state_for
place s t dest =
    if dest == null
    then set_state s t st_run
    else if eqb_ℤ (s.tasks t).pid (pos 0)
    then set_state s t (state_for dest (s.tasks t).current_state)
    else set_links (set_state s t (state_for dest (s.tasks t).current_state))
        (list_add_tail s.links (list_of t) dest)

unfoldable pub update_process_state_rr : Sched → ℕ → ℕ → Sched
update_process_state_rr s t dest =
    if is_neg (s.tasks t).pid then free_task s t else place (unlink s t) t dest

-- inner_task_switch: the kernel stack of `new` for the next trap, its page directory if it differs,
-- and its stack now. The registers that entry.S saves on the stacks are not modelled.
unfoldable pub task_switch : Sched → ℕ → Sched
task_switch s new =
    let esp0 = new + 4 * kernel_stack_size in
    let dir = (s.tasks new).dir_pages_base_addr in
    record s {
      tss_esp0 = esp0;
      msr_esp = esp0;
      cr3 = if dir == (s.tasks s.current).dir_pages_base_addr then s.cr3 else dir;
      current = new;
    }

-- The task that is to run next.
unfoldable pub next_task : Sched → ℕ
unfolding list_empty list_head_to_task_struct
next_task s =
    if list_empty s.links readyqueue
    then s.idle_task
    else list_head_to_task_struct (list_first s.links readyqueue)

-- A task that is still running goes to the end of the ready queue.
unfoldable pub requeue_current : Sched → Sched
requeue_current s =
    if is_run (s.tasks s.current).current_state
    then update_process_state_rr s s.current readyqueue
    else s

-- A switch, unless the task runs already.
unfoldable pub switch_to : Sched → ℕ → Sched
switch_to s nt = if eqb_ℤ (s.tasks s.current).pid (s.tasks nt).pid then s else task_switch s nt

-- `nt` runs: its state, its quantum, its stack.
unfoldable pub dispatch : Sched → ℕ → Sched
dispatch s nt =
    let s' = update_process_state_rr s nt null in
    switch_to (record s' { tick_counter = get_quantum s' nt }) nt

unfoldable pub sched_next_rr : Sched → Sched
sched_next_rr s = dispatch (requeue_current s) (next_task s)

unfoldable pub needs_sched_rr : Sched → Bool
needs_sched_rr s = leb_ℤ s.tick_counter (pos 0)

unfoldable pub update_sched_data_rr : Sched → Sched
update_sched_data_rr s =
    if is_pos s.tick_counter then record s { tick_counter = s.tick_counter -ℤ pos 1 } else s
