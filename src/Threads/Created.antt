-- ===== src/Threads/Created.antt =====
-- sys_create_thread on a state that satisfies the invariant of the scheduler.
use so2_joan_erik.Common.{ℕ, ◌+◌, ◌-◌, ◌*◌, ◌≡◌, refl, true, List, ==_refl, ne→==, ℤ}
use so2_joan_erik.Task.{list_of, kernel_stack_size}
use so2_joan_erik.Sched.Queues.{Contents}
use so2_joan_erik.Sched.RoundRobin.{list_head_to_task_struct-list_of}
use so2_joan_erik.UserMem.{verify_read, verify_write, access_ok}
use so2_joan_erik.Machine.{Machine, store_long, store_byte}
use so2_joan_erik.Threads.{
  copy_union, take_union, enlist, set_frame, thread_made, made_ready, sys_create_thread,
}
use so2_joan_erik.Threads.Ready.{
  Creator, Created, slot, some_free, first_free, make_ready-Created, make_ready_task,
}

-- What sys_create_thread does if it has a descriptor and good addresses: the result is the new PID; the
-- new task has its caller's directory, and a stack that ret_from_new_thread starts `function` from.
pub record CreatesThread (ret function stack : ℕ) (m : Machine) (r : ℤ × Machine) (q : Contents)
    (t : ℕ) (cs : List ℕ) : Type 0 where
  pub result : r.0 ≡ m.kernel.pid_global
  pub created : Created m.kernel r.1.kernel q t cs
  pub directory :
      (r.1.kernel.sched.tasks t).dir_pages_base_addr
      ≡ (m.kernel.sched.tasks m.kernel.sched.current).dir_pages_base_addr
  pub k_esp : (r.1.kernel.sched.tasks t).k_esp ≡ t + 4 * (kernel_stack_size - 19)
  pub returns : (r.1.kernel.sched.tasks t).stack (kernel_stack_size - 18) ≡ ret
  pub starts : (r.1.kernel.sched.tasks t).stack (kernel_stack_size - 5) ≡ function
  pub user_esp : (r.1.kernel.sched.tasks t).stack (kernel_stack_size - 2) ≡ stack - 8

-- The task before it is ready.
abbrev complete : ℕ → ℕ → ℕ → ℕ → Machine → ℕ → Machine
complete ret function stack parameter m t = thread_made ret function stack parameter (list_of t) t m

module _ (ret function stack parameter : ℕ) (m : Machine) {q : Contents} {t : ℕ} {ts cs : List ℕ}
    (c : Creator m.kernel q t ts cs) where
  complete-Created :
      let r = made_ready t (complete ret function stack parameter m t) in
      Created m.kernel r.1.kernel q t cs
  unfolding thread_made made_ready enlist set_frame take_union copy_union store_long store_byte
  complete-Created =
      make_ready-Created c (complete ret function stack parameter m t).kernel refl refl refl refl
        (rw (==_refl t) refl) (rw (==_refl t) refl) (rw (==_refl t) refl) (rw (==_refl t) c.running)
        (λ u ne. rw (ne→== ne) refl)

  complete-CreatesThread :
      CreatesThread ret function stack m
        (made_ready t (complete ret function stack parameter m t))
        q
        t
        cs
  unfolding thread_made made_ready enlist set_frame take_union copy_union store_long store_byte
  complete-CreatesThread =
      let b = complete ret function stack parameter m t in
      let e = make_ready_task b.kernel.sched t (rw (==_refl t) c.next_pid) in
      record {
        result = rw (made_ready, e) (rw (==_refl t) refl);
        created = complete-Created;
        directory = rw (made_ready, e) (rw (==_refl t) refl);
        k_esp = rw (made_ready, e) (rw (==_refl t) refl);
        returns = rw (made_ready, e) (rw (==_refl t) refl);
        starts = rw (made_ready, e) (rw (==_refl t) refl);
        user_esp = rw (made_ready, e) (rw (==_refl t) refl);
      }

-- At good addresses, sys_create_thread of a running process with a free descriptor at hand makes a task
-- as `CreatesThread` and `Created` say.
pub sys_create_thread-CreatesThread :
    (ret function stack parameter : ℕ) (m : Machine) {q : Contents} {t : ℕ} {ts cs : List ℕ}
    → Creator m.kernel q t ts cs
    → access_ok verify_read function 4 ≡ true
    → access_ok verify_write stack 4 ≡ true
    → CreatesThread ret function stack m (sys_create_thread ret function stack parameter m) q t cs
unfolding sys_create_thread
sys_create_thread-CreatesThread ret function stack parameter m c readable writable =
    rw (some_free c, readable, writable, first_free c, list_head_to_task_struct-list_of _ (slot c))
      (complete-CreatesThread ret function stack parameter m c)
