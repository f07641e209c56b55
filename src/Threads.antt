-- ===== src/Threads.antt =====
-- sys_create_thread of sys.c, and what sys_fork does in the same way.
--
-- The copy of a `union task_union` copies the links of its list heads too. Arguments that are code
-- addresses of entry.S are parameters.
pub mod Family
pub mod Placed
pub mod Ready
pub mod Created
use so2_joan_erik.Common.{ℕ, ◌+◌, ◌-◌, ◌*◌, ◌==◌, Bool, not, if◌then◌else◌, ℤ, pos, negsuc, ◌+ℤ◌}
use so2_joan_erik.Links.{
  Links, update, init_list_head, list_add_tail, list_del, list_empty, list_first,
}
use so2_joan_erik.Task.{
  Task, kernel_stack_size, default_quantum_ticks, list_of, fills_of, parent_anchor_of, wait_list_of,
  wait_anchor_of, sem_list_of, readyqueue, freequeue, list_head_to_task_struct,
}
use so2_joan_erik.Sched.{Sched, update_task, set_quantum, update_process_state_rr}
use so2_joan_erik.Kernel.{Kernel}
use so2_joan_erik.Directories.{Directories, enomem, add_dir_ref}
use so2_joan_erik.UserMem.{verify_read, verify_write, access_ok}
use so2_joan_erik.Process.{efault}
use so2_joan_erik.Machine.{Machine, with_sched, set_task, store_long}

-- A list head of one task, copied to another.
unfoldable pub copy_anchor : Links → ℕ → ℕ → Links
copy_anchor l source dest = record {
  next = update l.next dest (l.next source);
  prev = update l.prev dest (l.prev source);
}

unfoldable pub copy_anchors : Links → ℕ → ℕ → Links
copy_anchors l a b =
    let l1 = copy_anchor l (list_of a) (list_of b) in
    let l2 = copy_anchor l1 (fills_of a) (fills_of b) in
    let l3 = copy_anchor l2 (parent_anchor_of a) (parent_anchor_of b) in
    let l4 = copy_anchor l3 (wait_list_of a) (wait_list_of b) in
    let l5 = copy_anchor l4 (wait_anchor_of a) (wait_anchor_of b) in
    copy_anchor l5 (sem_list_of a) (sem_list_of b)

-- `copy_data(current(), fill, sizeof(union task_union))`
unfoldable pub copy_union : ℕ → Sched → Sched
unfolding copy_anchors
copy_union fill s = record s {
  links = copy_anchors s.links s.current fill;
  tasks = update_task s.tasks fill (s.tasks s.current);
}

-- The PID, the parent and the lists of the new task.
unfoldable pub enlist : ℕ → Kernel → Kernel
enlist fill k =
    let s = k.sched in
    let t = s.tasks fill in
    let l = list_add_tail s.links (parent_anchor_of fill) (fills_of s.current) in
    record k {
      pid_global = k.pid_global +ℤ pos 1;
      sched = record s {
        links = init_list_head (init_list_head l (fills_of fill)) (wait_list_of fill);
        tasks =
            update_task s.tasks fill
              (record t { pid = k.pid_global; pare = s.current; pending_unblocks = pos 0 });
      };
    }

abbrev pub set_stack : Task → ℕ → ℕ → Task
set_stack t i v = record t { stack = λ j. if j == i then v else t.stack j }

-- The frame that task_switch returns through: a false ebp, the code `ret`, and k_esp at them.
unfoldable pub set_frame : ℕ → ℕ → Task → Task
set_frame fill ret t =
    let t' = set_stack (set_stack t (kernel_stack_size - 19) 0) (kernel_stack_size - 18) ret in
    record t' { k_esp = fill + 4 * (kernel_stack_size - 19) }

-- `set_quantum(&(fill->task), DEFAULT_QUANTUM_TICKS);
-- update_process_state_rr(&(fill->task), &readyqueue);`
unfoldable pub make_ready : ℕ → Sched → Sched
make_ready fill s =
    update_process_state_rr (set_quantum s fill (pos default_quantum_ticks)) fill readyqueue

-- `add_DIR_ref(fill)`, as a statement.
abbrev pub give_ref : ℕ → Machine → Machine
give_ref fill m = record m { dirs = (add_dir_ref m.dirs (m.kernel.sched.tasks fill)).1 }

abbrev pub on_kernel : (Kernel → Kernel) → Machine → Machine
on_kernel f m = record m { kernel = f m.kernel }

abbrev pub on_sched : (Sched → Sched) → Machine → Machine
on_sched f m = with_sched m (f m.kernel.sched)

abbrev pub on_task : ℕ → (Task → Task) → Machine → Machine
on_task t f m = set_task m t (f (m.kernel.sched.tasks t))

-- `list_del(e)` and the copy.
unfoldable pub take_union : ℕ → ℕ → Sched → Sched
unfolding copy_union
take_union e fill s = copy_union fill (record s { links = list_del s.links e })

-- sys_create_thread once it has found a descriptor, until the task is complete: the user's stack gets
-- `*--stack = parameter; *--stack = 0;`.
unfoldable pub thread_made : ℕ → ℕ → ℕ → ℕ → ℕ → ℕ → Machine → Machine
thread_made ret function stack parameter e fill m =
    let listed = on_kernel (enlist fill) (give_ref fill (on_sched (take_union e fill) m)) in
    let pushed = store_long (store_long listed (stack - 4) parameter) (stack - 8) 0 in
    on_task fill
      (λ t.
        set_stack (set_stack (set_frame fill ret t) (kernel_stack_size - 5) function)
          (kernel_stack_size - 2) (stack - 8))
      pushed

-- The end of the call.
unfoldable pub made_ready : ℕ → Machine → ℤ × Machine
made_ready fill m =
    let ready = on_sched (make_ready fill) m in ((ready.kernel.sched.tasks fill).pid, ready)

-- `ret` is the address of ret_from_new_thread.
unfoldable pub sys_create_thread : ℕ → ℕ → ℕ → ℕ → Machine → ℤ × Machine
sys_create_thread ret function stack parameter m =
    let e = list_first m.kernel.sched.links freequeue in
    let fill = list_head_to_task_struct e in
    let made = made_ready fill (thread_made ret function stack parameter e fill m) in
    if list_empty m.kernel.sched.links freequeue
    then (enomem, m)
    else if not (access_ok verify_read function 4)
    then (efault, m)
    else if not (access_ok verify_write stack 4)
    then (efault, m)
    else made
