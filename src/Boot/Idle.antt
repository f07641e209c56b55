-- ===== src/Boot/Idle.antt =====
-- init_idle, and what the two start-up functions leave as it is.
use so2_joan_erik.Common.{
  ℕ, zero, suc, ◌+◌, ◌-◌, ◌*◌, ◌%◌, ◌<◌, ◌≤◌, ◌≡◌, refl, ◌⊎◌, ◌∙◌, sym, subst, Bool, true, false,
  ◌==◌, if◌then◌else◌, for_up, arith, pos, negsuc,
}
use so2_joan_erik.Boot.{with_links}
use so2_joan_erik.Links.{Links, init_list_head, list_del, list_first}
use so2_joan_erik.Links.Ring.{SameAt, init_list_head_same, list_first-head_or}
use so2_joan_erik.Task.{
  st_free, st_ready, nr_tasks, task_addr, freequeue, list_of, fills_of, wait_list_of,
  kernel_stack_size,
}
use so2_joan_erik.Sched.{Sched}
use so2_joan_erik.Sched.Queues.{q_free, Contents, Holds, take, list_del-take}
use so2_joan_erik.Sched.Spared.{Holds-elsewhere}
use so2_joan_erik.Sched.Alike.{Alike, Alike-trans, update_task-Alike}
use so2_joan_erik.Sched.RoundRobin.{list_head_to_task_struct-list_of}
use so2_joan_erik.Directories.{find_dir, allocate_dir}
use so2_joan_erik.Directories.Tasks.{take_dir-same, allocate_heap-same}
use so2_joan_erik.Machine.{Machine, set_task}
use so2_joan_erik.Paging.{give_dir, give_page, set_user_pages}
use so2_joan_erik.Boot.{links_of, init_family, give_heap, idle_from, init_idle}
use so2_joan_erik.Boot.Queues.{filled, Freed}

pub give_dir-Alike : (t : ℕ) (m : Machine) → Alike m.kernel.sched (give_dir t m).kernel.sched
unfolding give_dir allocate_dir
give_dir-Alike t m =
    let f = take_dir-same (find_dir nr_tasks 0 m.dirs) m.dirs (m.kernel.sched.tasks t) in
    update_task-Alike m.kernel.sched t _ f.0 f.1

pub give_heap-Alike : (t : ℕ) (m : Machine) → Alike m.kernel.sched (give_heap t m).kernel.sched
unfolding give_heap
give_heap-Alike t m =
    let f = allocate_heap-same m.dirs (m.kernel.sched.tasks t) in
    update_task-Alike m.kernel.sched t _ f.0 f.1

pub give_pages-sched :
    (n i pt first : ℕ) (rw_bit : Bool) (m : Machine)
    → (for_up n i (give_page pt first rw_bit) m).kernel ≡ m.kernel
unfolding for_up give_page
give_pages-sched zero i pt first rw_bit m = refl
give_pages-sched (suc n) i pt first rw_bit m =
    give_pages-sched n (i + 1) pt first rw_bit (give_page pt first rw_bit i m)

pub set_user_pages-kernel : (m : Machine) (t : ℕ) → (set_user_pages m t).kernel ≡ m.kernel
unfolding set_user_pages
set_user_pages-kernel m t = give_pages-sched 20 0 _ _ true _ ∙ give_pages-sched 8 0 _ _ false m

-- Two list heads of a task written: those of the queues stay.
pub init_family_same :
    (l : Links) (t : ℕ)
    → t % 4096 ≡ 0
    → 64 ≤ t
    → (a : ℕ) → (a < 64) ⊎ (a % 4096 ≡ 8)
    → SameAt l (init_family l t) a
init_family_same l t al hi a off =
    let one = init_list_head_same l (fills_of t) a (omega (arith, off)) in
    let two =
      init_list_head_same (init_list_head l (fills_of t)) (wait_list_of t) a (omega (arith, off)) in
    (two.0 ∙ one.0, two.1 ∙ one.1)

abbrev pub after_idle : Contents
after_idle = take (filled nr_tasks) (task_addr 0)

-- What the state is like between init_idle and init_task1.
pub record Idled (s : Sched) : Type 0 where
  pub holds : Holds s.links after_idle
  pub idle : s.idle_task ≡ task_addr 0
  pub idle_pid : (s.tasks (task_addr 0)).pid ≡ pos 0
  pub pids : (j : ℕ) → 1 ≤ j → j < nr_tasks → (s.tasks (task_addr j)).pid ≡ negsuc 0
  pub states : (j : ℕ) → 1 ≤ j → j < nr_tasks → (s.tasks (task_addr j)).current_state ≡ st_free

Alike-Idled : {s s' : Sched} → Alike s s' → s'.idle_task ≡ s.idle_task → Idled s → Idled s'
Alike-Idled a idle i = record {
  holds = subst (λ l. Holds l after_idle) (sym a.links) i.holds;
  idle = idle ∙ i.idle;
  idle_pid = a.pid (task_addr 0) ∙ i.idle_pid;
  pids = λ j lo hi. a.pid (task_addr j) ∙ i.pids j lo hi;
  states = λ j lo hi. a.state (task_addr j) ∙ i.states j lo hi;
}

first_free : {s : Sched} → Freed nr_tasks s → list_first s.links freequeue ≡ list_of (task_addr 0)
first_free f = list_first-head_or (f.holds.rings q_free)

idle_from-Idled :
    (c : ℕ) (m : Machine)
    → Freed nr_tasks m.kernel.sched
    → Idled (idle_from c (list_of (task_addr 0)) (task_addr 0) m).kernel.sched
unfolding idle_from
idle_from-Idled c m f = record {
  holds =
      subst (λ l. Holds l after_idle) (sym a.links)
        (Holds-elsewhere _ (list_del-take f.holds (task_addr 0) q_free refl)
          (init_family_same _ (task_addr 0) refl (omega arith)));
  idle = refl;
  idle_pid = a.pid (task_addr 0);
  pids = λ j lo hi. a.pid (task_addr j) ∙ rw (other j lo) (f.pids j hi);
  states = λ j lo hi. a.state (task_addr j) ∙ rw (other j lo) (f.states j hi);
}
  where
    named : Machine
    named =
        let out =
          with_links m
            (init_family (list_del (links_of m) (list_of (task_addr 0))) (task_addr 0)) in
        let t = out.kernel.sched.tasks (task_addr 0) in
        set_task out (task_addr 0) (record t {
          pid = pos 0;
          pending_unblocks = pos 0;
          current_state = st_ready;
          quantum = pos 0;
        })

    stacked : Machine
    stacked =
        let given = give_dir (task_addr 0) named in
        let u = given.kernel.sched.tasks (task_addr 0) in
        set_task given (task_addr 0) (record u {
          stack = λ i.
              if i == kernel_stack_size - 1
              then c
              else if i == kernel_stack_size - 2
              then 0
              else u.stack i;
          k_esp = task_addr 0 + 4 * (kernel_stack_size - 2);
        })

    a : Alike named.kernel.sched stacked.kernel.sched
    a =
        Alike-trans (give_dir-Alike (task_addr 0) named)
          (update_task-Alike (give_dir (task_addr 0) named).kernel.sched (task_addr 0) _ refl refl)

    other : (j : ℕ) → 1 ≤ j → (task_addr j == task_addr 0) ≡ false
    other j lo = ground (arith, lo)

pub init_idle-Idled :
    (c : ℕ) (m : Machine) → Freed nr_tasks m.kernel.sched → Idled (init_idle c m).kernel.sched
unfolding init_idle
init_idle-Idled c m f =
    rw
      (
        first_free f,
        list_head_to_task_struct-list_of (task_addr 0)
            (record { aligned = refl; above = omega arith; below = omega arith }),
      )
      (idle_from-Idled c m f)
