-- ===== src/Process/Block.antt =====
-- sys_block and the clock.
use so2_joan_erik.Common.{
  ℕ, ◌≡◌, refl, ◌≢◌, true, false, arith, has, sym, subst, ap, ◌∙◌, inl, inr, ==_refl, pos, ◌+ℤ◌,
  ◌-ℤ◌, ◌<ℤ◌, ◌≤ℤ◌, leb_ℤ, is_pos, Bool-cases,
}
use so2_joan_erik.Links.Ring.{head_or}
use so2_joan_erik.Task.{st_blocked, is_run, blocked}
use so2_joan_erik.Sched.{
  Sched, update_task, update_process_state_rr, sched_next_rr, needs_sched_rr, update_sched_data_rr,
}
use so2_joan_erik.Sched.Queues.{q_ready, q_blocked, Contents, take, enqueue}
use so2_joan_erik.Sched.Invariant.{Inv, take-Unlisted}
use so2_joan_erik.Sched.Moves.{moved, update_process-eq, update_process-Inv, not_idle}
use so2_joan_erik.Sched.RoundRobin.{
  Runs, next_of, Scheduled, sched_next_rr-Scheduled, next_of-cases,
}
use so2_joan_erik.Screen.{Screen}
use so2_joan_erik.Kernel.{Kernel, Run, done, switched, pure, yield-switched}
use so2_joan_erik.Process.{sys_block, clock_routine}

-- The caller blocked.
abbrev pub asleep : Sched → Sched
asleep s = update_process_state_rr s s.current blocked

module _ {s : Sched} {q : Contents} (i : Inv s q) (r : Runs s q)
    (run : is_run (s.tasks s.current).current_state ≡ true)
    (process : is_pos (s.tasks s.current).pid ≡ true) where
  pub asleep-Inv : Inv (asleep s) (enqueue q q_blocked s.current)
  asleep-Inv =
      subst (λ x. Inv (asleep s) (enqueue x q_blocked s.current))
        (take-Unlisted q s.current (r.unlisted run))
        (update_process-Inv i s.current r.slot q_blocked process r.unlisted)

  asleep-eq : asleep s ≡ moved s s.current blocked st_blocked
  asleep-eq = update_process-eq s s.current q_blocked process

  pub asleep-Runs : Runs (asleep s) (enqueue q q_blocked s.current)
  asleep-Runs = rw asleep-eq (record {
    slot = r.slot;
    unlisted = λ h. absurd (ground (arith, h));
    live = λ h. absurd (ground (arith, h));
    idle = λ h. absurd (ground (arith, process, h));
    unique = λ t h e. ground (arith, r.unique t h, e);
  })

  asleep_current : (asleep s).current ≡ s.current
  asleep_current = rw asleep-eq refl

  asleep-next_of : next_of (asleep s) (enqueue q q_blocked s.current) ≡ next_of s q
  asleep-next_of = ap (λ d. head_or d (q q_ready)) (rw asleep-eq refl)

  next_of-ne-current : next_of s q ≢ s.current
  next_of-ne-current e = elim (next_of-cases i r) [
    | inl h ↦ not_idle s.current i process (sym e ∙ sym h)
    | inr h ↦ cc (r.unlisted run q_ready, subst (λ x. has x (q q_ready) ≡ true) e h)
  ]

  asleep-Scheduled : Scheduled (asleep s) (sched_next_rr (asleep s)) (enqueue q q_blocked s.current)
  asleep-Scheduled = sched_next_rr-Scheduled asleep-Inv asleep-Runs

  pub asleep_next : (sched_next_rr (asleep s)).current ≡ next_of s q
  asleep_next = asleep-Scheduled.next.current ∙ asleep-next_of

  pub asleep_left : (sched_next_rr (asleep s)).current ≢ (asleep s).current
  asleep_left e = next_of-ne-current (sym asleep_next ∙ e ∙ asleep_current)

  asleep_state : is_run ((asleep s).tasks (asleep s).current).current_state ≡ false
  asleep_state = rw asleep-eq (ground arith)

  pub asleep_queues :
      Inv (sched_next_rr (asleep s)) (take (enqueue q q_blocked s.current) (next_of s q))
  asleep_queues =
      subst (λ x. Inv (sched_next_rr (asleep s)) (take (enqueue q q_blocked s.current) x))
        asleep-next_of
        (subst
          (λ x.
            Inv (sched_next_rr (asleep s))
              (take x (next_of (asleep s) (enqueue q q_blocked s.current))))
          (rw asleep_state refl) asleep-Scheduled.inv)

-- The caller of sys_block is the last of the blocked processes, and the oldest ready process, or the
-- idle task, runs; when the caller is chosen again, the call returns.
pub record Blocks (k : Kernel) (q : Contents) (m : Run (Unit {0})) : Type 0 where
  pub after : Kernel
  pub run : m ≡ switched after (pure tt)
  pub queues : Inv after.sched (take (enqueue q q_blocked k.sched.current) (next_of k.sched q))
  pub next : after.sched.current ≡ next_of k.sched q

-- On queues as `Inv` says, for a running process as `Runs` says with no unblock pending, sys_block
-- blocks it as `Blocks` says.
pub sys_block-Blocks :
    {k : Kernel} {q : Contents}
    → Inv k.sched q
    → Runs k.sched q
    → is_run (k.sched.tasks k.sched.current).current_state ≡ true
    → is_pos (k.sched.tasks k.sched.current).pid ≡ true
    → leb_ℤ (k.sched.tasks k.sched.current).pending_unblocks (pos 0) ≡ true
    → Blocks k q (sys_block k)
unfolding sys_block
sys_block-Blocks {k} i r run process none = record {
  after = record k { sched = sched_next_rr (asleep k.sched) };
  run =
      rw none (yield-switched (record k { sched = asleep k.sched }) (asleep_left i r run process));
  queues = asleep_queues i r run process;
  next = asleep_next i r run process;
}

-- A call that returns at once, having taken one pending unblock off the caller.
pub record Passes (k : Kernel) (m : Run (Unit {0})) : Type 0 where
  pub after : Kernel
  pub run : m ≡ done tt after
  pub links : after.sched.links ≡ k.sched.links
  pub current : after.sched.current ≡ k.sched.current
  pub pending :
      (after.sched.tasks k.sched.current).pending_unblocks
      ≡ (k.sched.tasks k.sched.current).pending_unblocks -ℤ pos 1
  pub state : (t : ℕ) → (after.sched.tasks t).current_state ≡ (k.sched.tasks t).current_state

-- With an unblock pending, sys_block takes it off and returns: the queues, the states and the task
-- that runs stay as they are.
pub sys_block-Passes :
    (k : Kernel)
    → leb_ℤ (k.sched.tasks k.sched.current).pending_unblocks (pos 0) ≡ false
    → Passes k (sys_block k)
unfolding sys_block
sys_block-Passes k h =
    let s = k.sched in
    let ct = k.sched.tasks k.sched.current in
    record {
      after = record k {
        sched = record s {
          tasks =
              update_task s.tasks s.current
                (record ct { pending_unblocks = ct.pending_unblocks -ℤ pos 1 });
        };
      };
      run = rw h refl;
      links = refl;
      current = refl;
      pending = rw (==_refl s.current) refl;
      state = λ t. ground (arith, ap (λ u. (s.tasks u).current_state) {x = t} {y = s.current});
    }

update_sched_data_rr-Inv : {s : Sched} {q : Contents} → Inv s q → Inv (update_sched_data_rr s) q
unfolding update_sched_data_rr
update_sched_data_rr-Inv {s} i = elim (Bool-cases (is_pos s.tick_counter)) [
  | inl e ↦ rw e (record {
    holds = i.holds;
    tagged = i.tagged;
    listed = i.listed;
    idle_slot = i.idle_slot;
    idle_pid = i.idle_pid;
    idle_unlisted = i.idle_unlisted;
  })
  | inr e ↦ rw e i
]

update_sched_data_rr-Runs : {s : Sched} {q : Contents} → Runs s q → Runs (update_sched_data_rr s) q
unfolding update_sched_data_rr
update_sched_data_rr-Runs {s} r = elim (Bool-cases (is_pos s.tick_counter)) [
  | inl e ↦ rw e (record {
    slot = r.slot;
    unlisted = r.unlisted;
    live = r.live;
    idle = r.idle;
    unique = r.unique;
  })
  | inr e ↦ rw e r
]

-- A clock interrupt while the quantum has more than one tick left: the tick counter falls by one
-- and nothing else of the scheduler changes.
pub clock_routine_keeps :
    (show : Screen → Screen) (k : Kernel)
    → pos 1 <ℤ k.sched.tick_counter
    → (let s = k.sched in
        (clock_routine show k).sched ≡ record s { tick_counter = s.tick_counter -ℤ pos 1 })
      × ((clock_routine show k).zeos_tick ≡ k.zeos_tick +ℤ pos 10)
unfolding clock_routine update_sched_data_rr needs_sched_rr
clock_routine_keeps show k h =
    let positive : is_pos k.sched.tick_counter ≡ true = ground arith in
    let left : leb_ℤ (k.sched.tick_counter -ℤ pos 1) (pos 0) ≡ false = ground arith in
    (rw (positive, left) refl, refl)

spent :
    (s : Sched)
    → s.tick_counter ≤ℤ pos 1
    → leb_ℤ (update_sched_data_rr s).tick_counter (pos 0) ≡ true
unfolding update_sched_data_rr
spent s h = elim (Bool-cases (is_pos s.tick_counter)) [
  | inl e ↦ rw e (ground arith)
  | inr e ↦ rw e (ground arith)
]

-- On queues as `Inv` says and for a current task as `Runs` says, a clock interrupt at the last tick
-- of the quantum, or later: the scheduler is called with the
-- counter brought down, so the oldest ready process, or the idle task, runs.
pub clock_routine-Scheduled :
    (show : Screen → Screen) (k : Kernel) {q : Contents}
    → Inv k.sched q
    → Runs k.sched q
    → k.sched.tick_counter ≤ℤ pos 1
    → Scheduled (update_sched_data_rr k.sched) (clock_routine show k).sched q
unfolding clock_routine needs_sched_rr
clock_routine-Scheduled show k i r h =
    rw (spent k.sched h)
      (sched_next_rr-Scheduled (update_sched_data_rr-Inv i) (update_sched_data_rr-Runs r))
