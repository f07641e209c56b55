-- ===== src/Boot/Ready.antt =====
-- After the start the first process runs, the idle task stands by, and the invariant of the scheduler
-- holds.
use so2_joan_erik.Common.{
  ℕ, zero, suc, ◌-◌, ◌/◌, ◌<◌, ◌≤◌, ◌≡◌, refl, ◌∙◌, ap, sym, subst, true, false, ◌&&◌, [], ◌==◌,
  ==→eq, arith, has, Bool-cases, inl, inr, pos, negsuc, is_pos, has-erase-false,
}
use so2_joan_erik.Links.{null, list_first}
use so2_joan_erik.Links.Ring.{list_first-head_or}
use so2_joan_erik.Task.{
  Task, default_quantum_ticks, st_run, st_free, nr_tasks, task_addr, freequeue, list_of, IsSlot,
}
use so2_joan_erik.Sched.{Sched, update_task, update_process_state_rr, get_quantum, set_quantum}
use so2_joan_erik.Sched.Queues.{
  Queue, q_free, q_ready, q_blocked, q_read_blocked, eqb_queue, eqb_queue→eq, has-enqueue, Contents,
  take, Unlisted,
}
use so2_joan_erik.Sched.Spared.{Inv-elsewhere}
use so2_joan_erik.Sched.Invariant.{Inv, In, fits}
use so2_joan_erik.Sched.Alike.{Alike, Alike-trans, Alike-Inv, update_task-Alike}
use so2_joan_erik.Sched.Moves.{running, update_process_run-eq, update_process_run-Inv}
use so2_joan_erik.Sched.RoundRobin.{Runs, list_head_to_task_struct-list_of}
use so2_joan_erik.Sched.Registers.{Loaded}
use so2_joan_erik.Kernel.{Kernel}
use so2_joan_erik.Threads.Family.{Children, init_family-Children}
use so2_joan_erik.Machine.{Machine, with_sched}
use so2_joan_erik.Paging.{give_dir, set_user_pages, init_mm}
use so2_joan_erik.Machine.{get_dir}
use so2_joan_erik.Boot.{give_heap, task1_chosen, task1_equipped, task1_from, init_task1, boot}
use so2_joan_erik.Boot.Queues.{filled, init_sched-Freed}
use so2_joan_erik.Boot.Idle.{
  give_dir-Alike, give_heap-Alike, set_user_pages-kernel, init_family_same, after_idle, Idled,
  init_idle-Idled,
}

filled-cases :
    (i : ℕ) (k : Queue) (t : ℕ)
    → has t (filled i k) ≡ true
    → (k ≡ q_free) × (j : ℕ) × (j < i) × (t ≡ task_addr j)
filled-cases zero k t h = ground (arith, h)
filled-cases (suc i) k t h = elim (Bool-cases (has t (filled i k))) [
  | inl e ↦ let c = filled-cases i k t e in (c.0, c.1, omega (arith, c.2), c.3)
  | inr e ↦
      let o : (eqb_queue k q_free && (t == task_addr i)) ≡ true =
        ground (arith, e, h, has-enqueue (filled i) k q_free t (task_addr i)) in
      (
        eqb_queue→eq k q_free (ground (arith, o)),
        i,
        omega arith,
        ==→eq t (task_addr i) (ground (arith, o)),
      )
]

-- The first process named, but still in the free queue.
abbrev named1 : Sched → Sched
named1 s =
    let t = s.tasks (task_addr 1) in
    record s {
      tasks =
          update_task s.tasks (task_addr 1) (record t { pid = pos 1; pending_unblocks = pos 0 });
    }

idle_out : Unlisted after_idle (task_addr 0)
idle_out q_free = refl
idle_out q_ready = refl
idle_out q_blocked = refl
idle_out q_read_blocked = refl

after_idle-cases :
    (k : Queue) (t : ℕ)
    → has t (after_idle k) ≡ true
    → (k ≡ q_free) × (j : ℕ) × (1 ≤ j) × (j < nr_tasks) × (t ≡ task_addr j)
after_idle-cases k t h =
    let c =
      filled-cases nr_tasks k t
        (ground (arith, h, has-erase-false t (task_addr 0) (filled nr_tasks k))) in
    (
      c.0,
      c.1,
      elim (Bool-cases (c.1 == 0)) [
        | inl e ↦
            let z : t ≡ task_addr 0 = c.3 ∙ ap task_addr (==→eq c.1 0 e) in
            absurd {A = (1 ≤ c.1)}
              (ground (arith, h, subst (λ x. has x (after_idle k) ≡ false) (sym z) (idle_out k)))
        | inr e ↦ ground (arith, e)
      ],
      c.2,
      c.3,
    )

fits_free : (v : Task) → v.current_state ≡ st_free → fits q_free v ≡ true
fits_free v e = rw e refl

named1_state :
    {s : Sched}
    → Idled s
    → (j : ℕ) → 1 ≤ j
    → j < nr_tasks
    → ((named1 s).tasks (task_addr j)).current_state ≡ st_free
named1_state i j lo hi = elim (Bool-cases (task_addr j == task_addr 1)) [
  | inl e ↦ rw e (i.states 1 (omega arith) (omega arith))
  | inr e ↦ rw e (i.states j lo hi)
]

named1_listed :
    {s : Sched}
    → Idled s
    → (t j : ℕ) → j < nr_tasks
    → t ≡ task_addr j
    → is_pos ((named1 s).tasks t).pid ≡ true
    → In after_idle ((named1 s).tasks t).current_state t
named1_listed {s} i t zero hi e p =
    absurd (ground (arith, subst (λ x. is_pos ((named1 s).tasks x).pid ≡ true) e p, i.idle_pid))
named1_listed {s} i t (suc zero) hi e p = rw (e, named1_state i 1 (omega arith) (omega arith)) refl
named1_listed {s} i t (suc (suc j)) hi e p =
    let other : (task_addr (suc (suc j)) == task_addr 1) ≡ false = ground arith in
    absurd (
      ground (
        arith,
        other,
        i.pids (suc (suc j)) (omega arith) hi,
        subst (λ x. is_pos ((named1 s).tasks x).pid ≡ true) e p,
      ))

named1-Inv : {s : Sched} → Idled s → Inv (named1 s) after_idle
named1-Inv {s} i = record {
  holds = i.holds;
  tagged = λ k t h.
      let c = after_idle-cases k t h in
      rw (c.0, c.4) (fits_free ((named1 s).tasks (task_addr c.1)) (named1_state i c.1 c.2 c.3));
  listed = λ t slot p.
      named1_listed i t ((t - 65536) / 4096) (omega (arith, slot)) (omega (arith, slot)) p;
  idle_slot =
      subst IsSlot (sym i.idle)
        (record { aligned = refl; above = omega arith; below = omega arith });
  idle_pid = rw i.idle i.idle_pid;
  idle_unlisted = subst (Unlisted after_idle) (sym i.idle) idle_out;
}

abbrev pub after_boot : Contents
after_boot = take after_idle (task_addr 1)

-- The state after the start: the invariant holds of the queues, which are empty but for the free one
-- with the other eight descriptors; the first process is current and runs, with PID 1 and no
-- children; the idle task has the first descriptor.
pub record Started (s : Sched) : Type 0 where
  pub inv : Inv s after_boot
  pub runs : Runs s after_boot
  pub current : s.current ≡ task_addr 1
  pub idle : s.idle_task ≡ task_addr 0
  pub pid : (s.tasks (task_addr 1)).pid ≡ pos 1
  pub state : (s.tasks (task_addr 1)).current_state ≡ st_run
  pub others : (j : ℕ) → 2 ≤ j → j < nr_tasks → (s.tasks (task_addr j)).pid ≡ negsuc 0
  pub family : Children s.links (task_addr 1) []

first-IsSlot : IsSlot (task_addr 1)
first-IsSlot = record { aligned = refl; above = omega arith; below = omega arith }

task1_equipped-Alike :
    (ct : ℕ) (m : Machine) → Alike m.kernel.sched (task1_equipped ct m).kernel.sched
unfolding task1_equipped set_quantum
task1_equipped-Alike ct m = record { links = e.links; pid = e.pid; state = e.state }
  where
    timed : Machine
    timed = with_sched m (set_quantum m.kernel.sched ct (pos default_quantum_ticks))

    ticking : Machine
    ticking =
        let s = timed.kernel.sched in
        with_sched timed (record s { tick_counter = get_quantum s ct })

    a : Alike m.kernel.sched ticking.kernel.sched
    a =
        let v = m.kernel.sched.tasks ct in
        let b =
          update_task-Alike m.kernel.sched ct (record v { quantum = pos default_quantum_ticks })
            refl refl in
        record { links = b.links; pid = b.pid; state = b.state }

    given : Machine
    given = give_heap ct (give_dir ct ticking)

    e : Alike m.kernel.sched (set_user_pages given ct).kernel.sched
    e =
        subst (λ (k : Kernel). Alike m.kernel.sched k.sched) (sym (set_user_pages-kernel given ct))
          (Alike-trans a
            (Alike-trans (give_dir-Alike ct ticking) (give_heap-Alike ct (give_dir ct ticking))))

task1_equipped_fields :
    (ct : ℕ) (m : Machine)
    → ((task1_equipped ct m).kernel.sched.idle_task ≡ m.kernel.sched.idle_task)
      × ((task1_equipped ct m).kernel.sched.task1 ≡ ct)
unfolding task1_equipped set_quantum give_heap give_dir
task1_equipped_fields ct m =
    (ap (λ (k : Kernel). k.sched.idle_task) (set_user_pages-kernel _ ct), refl)

task1_chosen-Inv :
    (m : Machine)
    → Idled m.kernel.sched
    → let s = (task1_chosen (task_addr 1) m).kernel.sched in
      Inv s after_boot
      × (s.idle_task ≡ task_addr 0)
      × ((s.tasks (task_addr 1)).pid ≡ pos 1)
      × ((s.tasks (task_addr 1)).current_state ≡ st_run)
      × ((j : ℕ) → 2 ≤ j → j < nr_tasks → (s.tasks (task_addr j)).pid ≡ negsuc 0)
      × Children s.links (task_addr 1) []
unfolding task1_chosen
task1_chosen-Inv m i = (
  Inv-elsewhere _
      (update_process_run-Inv (named1-Inv i) (task_addr 1) first-IsSlot refl
        λ r. absurd (ground (arith, r, named1_state i 1 (omega arith) (omega arith))))
      (init_family_same _ (task_addr 1) refl (omega arith)),
  ap (λ (x : Sched). x.idle_task) e ∙ i.idle,
  ap (λ (x : Sched). (x.tasks (task_addr 1)).pid) e,
  ap (λ (x : Sched). (x.tasks (task_addr 1)).current_state) e,
  λ j lo hi.
      let other : (task_addr j == task_addr 1) ≡ false = ground (arith, lo) in
      ap (λ (x : Sched). (x.tasks (task_addr j)).pid) e ∙ rw other (i.pids j (omega arith) hi),
  init_family-Children _ (task_addr 1) first-IsSlot,
)
  where
    e :
        update_process_state_rr (named1 m.kernel.sched) (task_addr 1) null
        ≡ running (named1 m.kernel.sched) (task_addr 1)
    e = update_process_run-eq (named1 m.kernel.sched) (task_addr 1) refl

task1_out : Unlisted after_boot (task_addr 1)
task1_out q_free = refl
task1_out q_ready = refl
task1_out q_blocked = refl
task1_out q_read_blocked = refl

next_free : {s : Sched} → Idled s → list_first s.links freequeue ≡ list_of (task_addr 1)
next_free i = list_first-head_or (i.holds.rings q_free)

-- The first process is given the CPU.
abbrev with_task1 : Sched → Sched
with_task1 s = record s { current = s.task1 }

Started-of :
    (s s' : Sched)
    → Inv s after_boot
    → s.idle_task ≡ task_addr 0
    → (s.tasks (task_addr 1)).pid ≡ pos 1
    → (s.tasks (task_addr 1)).current_state ≡ st_run
    → ((j : ℕ) → 2 ≤ j → j < nr_tasks → (s.tasks (task_addr j)).pid ≡ negsuc 0)
    → Children s.links (task_addr 1) []
    → Alike s s'
    → s'.idle_task ≡ s.idle_task
    → s'.task1 ≡ task_addr 1
    → Started (with_task1 s')
Started-of s s' i idle p st others family a same one =
    let b = Alike-Inv a same i in
    let p' : (s'.tasks s'.task1).pid ≡ pos 1 = rw one (a.pid (task_addr 1) ∙ p) in
    record {
      inv = record {
        holds = b.holds;
        tagged = b.tagged;
        listed = b.listed;
        idle_slot = b.idle_slot;
        idle_pid = b.idle_pid;
        idle_unlisted = b.idle_unlisted;
      };
      runs = record {
        slot = subst IsSlot (sym one) first-IsSlot;
        unlisted = λ _. subst (Unlisted after_boot) (sym one) task1_out;
        live = λ _. rw p' refl;
        idle = λ z. absurd (ground (arith, z, p'));
        unique = λ t h _. ground (arith, h);
      };
      current = one;
      idle = same ∙ idle;
      pid = a.pid (task_addr 1) ∙ p;
      state = a.state (task_addr 1) ∙ st;
      others = λ j lo hi. a.pid (task_addr j) ∙ others j lo hi;
      family = subst (λ l. Children l (task_addr 1) []) (sym a.links) family;
    }

init_task1-Started :
    (m : Machine) → Idled m.kernel.sched → Started (with_task1 (init_task1 m).kernel.sched)
unfolding init_task1 task1_from
init_task1-Started m i =
    let c = task1_chosen-Inv m i in
    let f = task1_equipped_fields (task_addr 1) (task1_chosen (task_addr 1) m) in
    rw (next_free i, list_head_to_task_struct-list_of (task_addr 1) first-IsSlot)
      (Started-of _ _ c.0 c.1 c.2 c.3 c.4 c.5
        (task1_equipped-Alike (task_addr 1) (task1_chosen (task_addr 1) m)) f.0 f.1)

-- The machine holds the directory and the stack of the first process.
boot-Loaded : (cpu_idle : ℕ) (m : Machine) → Loaded (boot cpu_idle m).kernel.sched
unfolding boot init_task1 task1_from task1_equipped get_dir
boot-Loaded c m = record { directory = refl; interrupts = refl; sysenter = refl }

boot_sched-Started : (cpu_idle : ℕ) (m : Machine) → Started (boot cpu_idle m).kernel.sched
unfolding boot
boot_sched-Started c m = init_task1-Started _ (init_idle-Idled c _ (init_sched-Freed (init_mm m)))

-- From any contents of the memory, main brings the scheduler into the state that `Started` describes,
-- and the machine holds the directory and the kernel stack of the first process.
pub boot-Started :
    (cpu_idle : ℕ) (m : Machine)
    → Started (boot cpu_idle m).kernel.sched × Loaded (boot cpu_idle m).kernel.sched
boot-Started c m = (boot_sched-Started c m, boot-Loaded c m)
