-- ===== src/Sched/Dispatch.antt =====
-- `dispatch` makes a task current and running, and takes it out of its queue.
use so2_joan_erik.Common.{
  ℕ, ◌+◌, ◌*◌, ◌≡◌, refl, true, false, arith, has, sym, subst, ap, ◌∙◌, inl, inr, ◌⊎◌, Bool-cases,
  ℤ, is_neg, eqb_ℤ, eqb_ℤ→eq,
}
use so2_joan_erik.Links.{null}
use so2_joan_erik.Task.{st_run, IsSlot, kernel_stack_size}
use so2_joan_erik.Sched.{
  Sched, switch_to, dispatch, update_process_state_rr, get_quantum, task_switch,
}
use so2_joan_erik.Sched.Queues.{q_ready, Contents, take, Unlisted}
use so2_joan_erik.Sched.Invariant.{Inv, take-Unlisted}
use so2_joan_erik.Sched.Moves.{update_process_run-Inv, update_idle_run-Inv}
use so2_joan_erik.Sched.Unchanged.{SameButState, update_process_state_rr_same, update_run_state}

switch_to-Inv :
    {s : Sched} {q : Contents} (t : ℕ) (n : ℤ)
    → Inv s q
    → Inv (switch_to (record s { tick_counter = n }) t) q
unfolding switch_to task_switch
switch_to-Inv {s} t n i = elim (Bool-cases (eqb_ℤ (s.tasks s.current).pid (s.tasks t).pid)) [
  | inl e ↦ rw e (record {
    holds = i.holds;
    tagged = i.tagged;
    listed = i.listed;
    idle_slot = i.idle_slot;
    idle_pid = i.idle_pid;
    idle_unlisted = i.idle_unlisted;
  })
  | inr e ↦ rw e (record {
    holds = i.holds;
    tagged = i.tagged;
    listed = i.listed;
    idle_slot = i.idle_slot;
    idle_pid = i.idle_pid;
    idle_unlisted = i.idle_unlisted;
  })
]

-- `dispatch` of a ready process or of the idle task.
pub dispatch-Inv :
    {s : Sched} {q : Contents} (t : ℕ)
    → Inv s q
    → IsSlot t
    → (t ≡ s.idle_task) ⊎ (has t (q q_ready) ≡ true)
    → Inv (dispatch s t) (take q t)
unfolding dispatch
dispatch-Inv {s} {q} t i slot h = switch_to-Inv t _ (run h)
  where
    run :
        (t ≡ s.idle_task) ⊎ (has t (q q_ready) ≡ true)
        → Inv (update_process_state_rr s t null) (take q t)
    run (inl e) =
        rw (take-Unlisted q t (subst (Unlisted q) (sym e) i.idle_unlisted))
          (update_idle_run-Inv i t slot e)
    run (inr e) =
        let f = i.tagged q_ready t e in
        update_process_run-Inv i t slot (ground (arith, f)) (λ r. ground (arith, f, r))

-- The task given is current and runs with its own quantum. If the machine held the directory and the
-- kernel stack of the caller, it holds those of the task; no directory has changed.
pub record Dispatched (s s' : Sched) (t : ℕ) : Type 0 where
  pub current : s'.current ≡ t
  pub state : (s'.tasks t).current_state ≡ st_run
  pub ticks : s'.tick_counter ≡ (s.tasks t).quantum
  pub cr3 :
      s.cr3 ≡ (s.tasks s.current).dir_pages_base_addr → s'.cr3 ≡ (s.tasks t).dir_pages_base_addr
  pub stack :
      s.tss_esp0 ≡ s.current + 4 * kernel_stack_size → s'.tss_esp0 ≡ t + 4 * kernel_stack_size
  pub msr : s.msr_esp ≡ s.current + 4 * kernel_stack_size → s'.msr_esp ≡ t + 4 * kernel_stack_size
  pub dirs : (u : ℕ) → (s'.tasks u).dir_pages_base_addr ≡ (s.tasks u).dir_pages_base_addr

pub switch_to-Dispatched :
    (s : Sched) (t : ℕ)
    → (s.tasks t).current_state ≡ st_run
    → s.tick_counter ≡ (s.tasks t).quantum
    → ((s.tasks t).pid ≡ (s.tasks s.current).pid → t ≡ s.current)
    → Dispatched s (switch_to s t) t
unfolding switch_to task_switch
switch_to-Dispatched s t run ticks unique =
    elim (Bool-cases (eqb_ℤ (s.tasks s.current).pid (s.tasks t).pid)) [
      | inl e ↦
          let p : t ≡ s.current =
            unique (sym (eqb_ℤ→eq (s.tasks s.current).pid (s.tasks t).pid e)) in
          rw e (record {
            current = sym p;
            state = run;
            ticks = ticks;
            cr3 = λ h. h ∙ ap (λ u. (s.tasks u).dir_pages_base_addr) (sym p);
            stack = λ h. h ∙ ap (λ u. u + 4 * kernel_stack_size) (sym p);
            msr = λ h. h ∙ ap (λ u. u + 4 * kernel_stack_size) (sym p);
            dirs = λ u. refl;
          })
      | inr e ↦ rw e (record {
        current = refl;
        state = run;
        ticks = ticks;
        cr3 = λ h. ground arith;
        stack = λ h. refl;
        msr = λ h. refl;
        dirs = λ u. refl;
      })
    ]

pub dispatch-Dispatched :
    (s : Sched) (t : ℕ)
    → is_neg (s.tasks t).pid ≡ false
    → ((s.tasks t).pid ≡ (s.tasks s.current).pid → t ≡ s.current)
    → Dispatched s (dispatch s t) t
unfolding dispatch get_quantum
dispatch-Dispatched s t live unique = record {
  current = d.current;
  state = d.state;
  ticks = d.ticks ∙ u.quantum t;
  cr3 = λ h. d.cr3 (u.cr3 ∙ h ∙ sym cur_dir) ∙ u.dir t;
  stack = λ h. d.stack (u.esp0 ∙ h ∙ ap (λ x. x + 4 * kernel_stack_size) (sym u.current));
  msr = λ h. d.msr (u.msr ∙ h ∙ ap (λ x. x + 4 * kernel_stack_size) (sym u.current));
  dirs = λ x. d.dirs x ∙ u.dir x;
}
  where
    s' : Sched
    s' = update_process_state_rr s t null

    u : SameButState s s' t
    u = update_process_state_rr_same s t null

    cur_pid : (s'.tasks s'.current).pid ≡ (s.tasks s.current).pid
    cur_pid = u.pid s'.current ∙ ap (λ x. (s.tasks x).pid) u.current

    cur_dir : (s'.tasks s'.current).dir_pages_base_addr ≡ (s.tasks s.current).dir_pages_base_addr
    cur_dir = u.dir s'.current ∙ ap (λ x. (s.tasks x).dir_pages_base_addr) u.current

    d : Dispatched (record s' { tick_counter = (s'.tasks t).quantum }) (dispatch s t) t
    d =
        switch_to-Dispatched _ t (update_run_state s t live) refl
          (λ e. unique (sym (u.pid t) ∙ e ∙ cur_pid) ∙ sym u.current)

-- It does not matter that the running task went to the ready queue before.
pub Dispatched-same :
    {s s' s'' : Sched} (t u : ℕ) → SameButState s s' u → Dispatched s' s'' t → Dispatched s s'' t
Dispatched-same {s} {s'} t u same d = record {
  current = d.current;
  state = d.state;
  ticks = d.ticks ∙ same.quantum t;
  cr3 = λ h.
      d.cr3 (
        same.cr3
        ∙ h
        ∙ sym (same.dir s'.current ∙ ap (λ x. (s.tasks x).dir_pages_base_addr) same.current))
      ∙ same.dir t;
  stack = λ h. d.stack (same.esp0 ∙ h ∙ ap (λ x. x + 4 * kernel_stack_size) (sym same.current));
  msr = λ h. d.msr (same.msr ∙ h ∙ ap (λ x. x + 4 * kernel_stack_size) (sym same.current));
  dirs = λ x. d.dirs x ∙ same.dir x;
}
