-- ===== src/Boot/First.antt =====
-- The first process may create threads and children at once.
use so2_joan_erik.Common.{
  ℕ, ◌≡◌, ◌≢◌, refl, ap, for_up-keeps, ◌∙◌, sym, true, [], ◌∷◌, map, pos, arith,
}
use so2_joan_erik.Task.{task_addr}
use so2_joan_erik.Machine.{Machine}
use so2_joan_erik.UserMem.{verify_read, verify_write, access_ok}
use so2_joan_erik.Threads.{sys_create_thread}
use so2_joan_erik.Threads.Ready.{Creator}
use so2_joan_erik.Threads.Created.{CreatesThread, sys_create_thread-CreatesThread}
use so2_joan_erik.Kernel.{Kernel}
use so2_joan_erik.Paging.{init_mm, init_table_pages, init_dir_pages, init_dir_page, give_dir}
use so2_joan_erik.Boot.{
  boot, init_sched, init_slot, free_sem, init_idle, idle_from, init_task1, task1_from,
  task1_equipped, task1_chosen, give_heap,
}
use so2_joan_erik.Boot.Idle.{set_user_pages-kernel}
use so2_joan_erik.Boot.Ready.{after_boot, boot-Started}

-- No step of the start changes `pidGlobal`.
init_mm-pid_global : (m : Machine) → (init_mm m).kernel.pid_global ≡ m.kernel.pid_global
unfolding init_mm init_table_pages init_dir_pages init_dir_page give_dir
init_mm-pid_global m =
    for_up-keeps (λ (x : Machine). x.kernel.pid_global) _ (λ i s. refl) _ _ _
    ∙ for_up-keeps (λ (x : Machine). x.kernel.pid_global) _ (λ i s. refl) _ _ _

init_sched-pid_global : (m : Machine) → (init_sched m).kernel.pid_global ≡ m.kernel.pid_global
unfolding init_sched init_slot free_sem
init_sched-pid_global m =
    for_up-keeps (λ (x : Machine). x.kernel.pid_global) _ (λ i s. refl) _ _ _
    ∙ for_up-keeps (λ (x : Kernel). x.pid_global) _ (λ i s. refl) _ _ _

init_task1-pid_global : (m : Machine) → (init_task1 m).kernel.pid_global ≡ m.kernel.pid_global
unfolding init_task1 task1_from task1_equipped task1_chosen give_heap give_dir
init_task1-pid_global m = ap (λ (k : Kernel). k.pid_global) (set_user_pages-kernel _ _)

boot-pid_global :
    (cpu_idle : ℕ) (m : Machine) → (boot cpu_idle m).kernel.pid_global ≡ m.kernel.pid_global
unfolding boot init_idle idle_from give_dir
boot-pid_global cpu_idle m =
    init_task1-pid_global _ ∙ init_sched-pid_global (init_mm m) ∙ init_mm-pid_global m

pid_ne : pos 1000 ≢ pos 1
pid_ne e = ground (arith, e)

-- `int pidGlobal = 1000`: once main has started the system, the first process may create tasks; the next
-- free descriptor is the third one.
pub boot-Creator :
    (cpu_idle : ℕ) (m : Machine)
    → m.kernel.pid_global ≡ pos 1000
    → Creator
        (boot cpu_idle m).kernel
        after_boot
        (task_addr 2)
        (map task_addr (3 ∷ 4 ∷ 5 ∷ 6 ∷ 7 ∷ 8 ∷ 9 ∷ []))
        []
boot-Creator cpu_idle m initial =
    let s = (boot-Started cpu_idle m).0 in
    let pid = boot-pid_global cpu_idle m ∙ initial in
    record {
      inv = s.inv;
      runs = s.runs;
      running = rw s.current s.state;
      free = refl;
      family = rw s.current s.family;
      fresh = refl;
      next_pid = rw pid refl;
      other_pid = λ e.
          pid_ne (
            sym pid ∙ e ∙ ap (λ t. ((boot cpu_idle m).kernel.sched.tasks t).pid) s.current ∙ s.pid);
    }

-- For instance a thread: it is then the only one in the ready queue.
pub boot-CreatesThread :
    (cpu_idle ret function stack parameter : ℕ) (m : Machine)
    → m.kernel.pid_global ≡ pos 1000
    → access_ok verify_read function 4 ≡ true
    → access_ok verify_write stack 4 ≡ true
    → CreatesThread ret function stack
        (boot cpu_idle m)
        (sys_create_thread ret function stack parameter (boot cpu_idle m))
        after_boot
        (task_addr 2)
        []
boot-CreatesThread cpu_idle ret function stack parameter m initial readable writable =
    sys_create_thread-CreatesThread ret function stack parameter (boot cpu_idle m)
      (boot-Creator cpu_idle m initial) readable writable
