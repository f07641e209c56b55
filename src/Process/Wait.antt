-- ===== src/Process/Wait.antt =====
-- sys_wait_thread and sys_unblock of sys.c.
--
-- The traversal of the children runs on fuel: a ring of at most ten tasks needs eleven rounds.
use so2_joan_erik.Common.{
  ℕ, zero, suc, ◌+◌, ◌==◌, if◌then◌else◌, Option, none, some, ℤ, pos, negsuc, ◌+ℤ◌, eqb_ℤ,
}
use so2_joan_erik.Links.{list_add_tail, list_first}
use so2_joan_erik.Task.{
  is_blocked, nr_tasks, task_addr, fills_of, wait_list_of, wait_anchor_of, blocked, readyqueue,
  list_head_to_task_struct,
}
use so2_joan_erik.Sched.{update_task}
use so2_joan_erik.Kernel.{
  Kernel, done, out_of_fuel, Call, pure, get, ◌>>=◌, ◌>>◌, modify_sched, modify_links, move_to,
  yield,
}
use so2_joan_erik.Process.{einval}

-- The loop of sys_wait_thread: the first descriptor with the PID.
unfoldable pub find_task : ℕ → ℤ → ℕ → Kernel → Option ℕ
find_task zero pid i k = none
find_task (suc n) pid i k =
    let rest = find_task n pid (i + 1) k in
    if eqb_ℤ (k.sched.tasks (task_addr i)).pid pid then some (task_addr i) else rest

-- The caller waits for the task `bt`; when it goes on, it returns the PID that stands there then.
unfoldable pub wait_for : ℕ → Call ℤ
wait_for bt = do
  k ← get
  modify_links λ m. list_add_tail m (wait_anchor_of k.sched.current) (wait_list_of bt)
  move_to k.sched.current blocked
  yield
  k' ← get
  pure (k'.sched.tasks bt).pid

abbrev pub wait_found : Option ℕ → Call ℤ
wait_found none = pure einval
wait_found (some bt) = wait_for bt

unfoldable pub sys_wait_thread : ℤ → Call ℤ
sys_wait_thread pid k = wait_found (find_task nr_tasks pid 0 k) k

-- What sys_unblock does with a child that has the PID.
unfoldable pub unblock_fill : ℕ → Call (Unit {0})
unblock_fill fill k =
    let t = k.sched.tasks fill in
    if is_blocked t.current_state
    then move_to fill readyqueue k
    else modify_sched
        (λ s. record s {
          tasks =
              update_task s.tasks fill
                (record t { pending_unblocks = t.pending_unblocks +ℤ pos 1 });
        })
        k

-- The loop over the children, from the entry `e` of the ring at `head`.
unfoldable pub unblock_loop : ℕ → ℤ → ℕ → ℕ → ℤ → Call ℤ
unblock_loop zero pid head e ret k = out_of_fuel
unblock_loop (suc f) pid head e ret k =
    let fill = list_head_to_task_struct e in
    let next_entry =
      λ (r : ℤ) (k' : Kernel). unblock_loop f pid head (k'.sched.links.next e) r k' in
    if e == head
    then done ret k
    else if eqb_ℤ (k.sched.tasks fill).pid pid
    then (unblock_fill fill >>= λ _. next_entry (pos 0)) k
    else next_entry ret k

unfoldable pub sys_unblock : ℤ → Call ℤ
sys_unblock pid = do
  k ← get
  ret ←
      unblock_loop (nr_tasks + 1) pid (fills_of k.sched.current)
        (list_first k.sched.links (fills_of k.sched.current)) (negsuc 0)
  yield
  pure ret
