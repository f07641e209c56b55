-- ===== src/Exit.antt =====
-- sys_exit of sys.c.
--
-- The call of sys_semDestroy for each semaphore of the process may give the CPU away. After the last
-- call of the scheduler the process does not go on: its descriptor is free. The loops over the children
-- and the waiters run on fuel: a ring of at most ten tasks needs eleven rounds.
pub mod Children
pub mod Families
pub mod Waiting
pub mod Waiters
pub mod Orphans
pub mod Leaves
pub mod Memory
pub mod Exits
pub mod Joins
use so2_joan_erik.Common.{
  ℕ, zero, suc, ◌+◌, ◌==◌, if◌then◌else◌, for_up, Option, none, some, ℤ, pos, negsuc, eqb_ℤ, leb_ℤ,
  pos_part, false,
}
use so2_joan_erik.Links.{null, list_add_tail, list_del}
use so2_joan_erik.Task.{
  Task, nr_tasks, num_sems, fills_of, parent_anchor_of, wait_list_of, readyqueue, freequeue,
  list_head_to_task_struct,
}
use so2_joan_erik.Sched.{Sched, update_task, set_links, update_process_state_rr, sched_next_rr}
use so2_joan_erik.Kernel.{Run, done, switched, out_of_fuel}
use so2_joan_erik.Semaphore.{sys_sem_destroy_extended}
use so2_joan_erik.Memory.{free_frame, get_frame}
use so2_joan_erik.Directories.{sub_dir_ref}
use so2_joan_erik.Machine.{Machine, get_pt}
use so2_joan_erik.Paging.{num_pag_data, pag_log_init_data, pag_log_init_heap}
use so2_joan_erik.Threads.{on_sched, on_task}
use so2_joan_erik.Fork.{heap_of, unmap_page}

-- The process has left, and another task runs; or another task runs, and the call goes on from the
-- state in which its task is chosen again; or a loop of the model ran out of fuel.
pub data Exit : Type 0 where
  left : Machine → Exit
  away : Machine → (Machine → Exit) → Exit
  exhausted : Exit

-- A system call of the kernel, and what follows it.
abbrev pub after_call : {A : Type 0} → Machine → Run A → (Machine → Exit) → Exit
after_call m (done a k) f = f (record m { kernel = k })
after_call m (switched k resume) f =
    away (record m { kernel = k }) (λ m'. after_call m' (resume m'.kernel) f)
after_call m out_of_fuel f = exhausted

-- The loop over the semaphores, from entry `i` on; `fuel` is that of sys_semDestroy.
unfoldable pub destroy_sems : ℕ → ℕ → ℕ → ℕ → (Machine → Exit) → Machine → Exit
destroy_sems fuel zero i ct next_step m = next_step m
destroy_sems fuel (suc n) i ct next_step m =
    let rest = destroy_sems fuel n (i + 1) ct next_step in
    let sem = m.kernel.semaphores i in
    if eqb_ℤ sem.creator_pid (m.kernel.sched.tasks ct).pid
    then after_call m (sys_sem_destroy_extended fuel sem.id false m.kernel) rest
    else rest m

-- `free_frame(get_frame(ctTP, i)); del_ss_pag(ctTP, i);`
unfoldable pub free_page : ℕ → ℕ → Machine → Machine
free_page pt i m =
    let freed = record m { phys_mem = free_frame m.phys_mem (get_frame (m.page_tables pt) i) } in
    unmap_page pt i freed

-- The last user of a directory frees the frames of its data and of its heap.
unfoldable pub release_memory : ℕ → ℕ → Machine → Machine
unfolding free_page
release_memory pt ct m =
    let r = sub_dir_ref m.dirs (m.kernel.sched.tasks ct) in
    let m' = record m { dirs = r.1 } in
    let no_data = for_up num_pag_data pag_log_init_data (free_page pt) m' in
    if leb_ℤ r.0 (pos 0)
    then for_up (pos_part (heap_of m' ct)) pag_log_init_heap (free_page pt) no_data
    else m'

-- list_for_each_safe: the rounds from the entry `p` of the list at `head` on, or none if there is not
-- enough fuel.
unfoldable pub list_for_each_safe : ℕ → (ℕ → Sched → Sched) → ℕ → ℕ → Sched → Option Sched
list_for_each_safe zero body head p s = none
list_for_each_safe (suc f) body head p s =
    let rest = list_for_each_safe f body head (s.links.next p) (body p s) in
    if p == head then some s else rest

-- A child goes to the idle task.
unfoldable pub give_child : ℕ → Sched → Sched
give_child p s =
    let child = list_head_to_task_struct p in
    set_links
      (record s {
        tasks = update_task s.tasks child (record (s.tasks child) { pare = s.idle_task });
      })
      (list_add_tail s.links p (fills_of s.idle_task))

-- A waiter becomes ready.
unfoldable pub wake_waiter : ℕ → Sched → Sched
wake_waiter p s =
    let s' = update_process_state_rr s (list_head_to_task_struct p) readyqueue in
    set_links s' (list_del s'.links p)

unfoldable pub for_each : (ℕ → Sched → Sched) → ℕ → Sched → Option Sched
for_each body head s = list_for_each_safe (nr_tasks + 1) body head (s.links.next head) s

-- The descriptor loses its PID, its directory and its parent, who loses the child.
unfoldable pub forget_task : ℕ → Sched → Sched
forget_task ct s = record s {
  tasks =
      update_task s.tasks ct
        (record (s.tasks ct) { pid = negsuc 0; dir_pages_base_addr = null; pare = null });
  links = list_del s.links (parent_anchor_of ct);
}

abbrev pub or_exhausted : Option Sched → (Sched → Option Sched) → Option Sched
or_exhausted none f = none
or_exhausted (some s) f = f s

-- The family and the waiters of the task, and the next task.
unfoldable pub leave : ℕ → Sched → Option Sched
unfolding for_each forget_task
leave ct s = or_exhausted (for_each give_child (fills_of ct) (forget_task ct s)) λ s1.
    or_exhausted (for_each wake_waiter (wait_list_of ct) s1)
      λ s2. some (sched_next_rr (update_process_state_rr s2 ct freequeue))

abbrev pub leave_with : Machine → Option Sched → Exit
leave_with m none = exhausted
leave_with m (some s) = left (on_sched (λ _. s) m)

unfoldable pub sys_exit : ℕ → Machine → Exit
unfolding destroy_sems release_memory leave
sys_exit fuel m =
    let ct = m.kernel.sched.current in
    let pt = get_pt m ct in
    destroy_sems fuel num_sems 0 ct
      (λ m'. let freed = release_memory pt ct m' in leave_with freed (leave ct freed.kernel.sched))
      m
