-- ===== src/Semaphore/Wait.antt =====
-- sys_semWait: the caller passes, or joins the end of the semaphore's queue and blocks.
use so2_joan_erik.Common.{
  ℕ, ◌≡◌, refl, ◌≢◌, Bool, true, false, List, [], ◌∷◌, ◌++◌, arith, has, sym, subst, ap, ◌∙◌, inl,
  inr, some, ℤ, pos, ◌-ℤ◌, is_neg, is_pos,
}
use so2_joan_erik.Links.{list_add_tail}
use so2_joan_erik.Links.Ring.{head_or}
use so2_joan_erik.Task.{st_blocked, is_run, sem_list_of, blocked_threads_of, blocked, num_sems}
use so2_joan_erik.Sched.{Sched, set_links, update_process_state_rr, sched_next_rr}
use so2_joan_erik.Sched.Queues.{q_ready, q_blocked, Contents, take, enqueue}
use so2_joan_erik.Sched.Invariant.{Inv, take-Unlisted}
use so2_joan_erik.Sched.Moves.{moved, update_process-eq, update_process-Inv, not_idle}
use so2_joan_erik.Sched.RoundRobin.{
  Runs, next_of, Scheduled, sched_next_rr-Scheduled, next_of-cases,
}
use so2_joan_erik.Sched.Spared.{Inv-elsewhere, update_process-spared, sched_next_rr-spared}
use so2_joan_erik.Kernel.{Semaphore, Kernel, Run, done, switched, yield-switched}
use so2_joan_erik.Semaphore.{
  set_sem, find_sem, wrong_side, wait_blocked, wait_live, wait_on, sys_sem_wait_extended,
}
use so2_joan_erik.Semaphore.Waiting.{Waiting, join-Waiting, join_same, Waiting-same}

-- The task that is current is a running process that waits on no semaphore queue `ws`.
pub record Caller (s : Sched) (q : Contents) (ws : List ℕ) : Type 0 where
  pub inv : Inv s q
  pub runs : Runs s q
  pub running : is_run (s.tasks s.current).current_state ≡ true
  pub process : is_pos (s.tasks s.current).pid ≡ true
  pub fresh : has s.current ws ≡ false

-- The state after the caller has blocked on the semaphore `j`.
pub record BlockedOn (s s' : Sched) (q : Contents) (j : ℕ) (ws : List ℕ) : Type 0 where
  -- It is the last of the waiters, and the last of the blocked processes.
  pub waiting : Waiting s'.links j (ws ++ s.current ∷ [])
  pub queues : Inv s' (take (enqueue q q_blocked s.current) (next_of s q))
  -- The oldest ready process runs, or the idle task.
  pub next : s'.current ≡ next_of s q
  pub left : s'.current ≢ s.current

-- The caller in the semaphore's queue, and then blocked.
abbrev pub joined : Sched → ℕ → Sched
joined s j = set_links s (list_add_tail s.links (sem_list_of s.current) (blocked_threads_of j))

abbrev pub asleep : Sched → ℕ → Sched
asleep s j = update_process_state_rr (joined s j) s.current blocked

module _ {s : Sched} {q : Contents} {j : ℕ} {ws : List ℕ} (c : Caller s q ws)
    (w : Waiting s.links j ws) where
  open c use {inv, runs, running, process, fresh}

  joined-Inv : Inv (joined s j) q
  joined-Inv = Inv-elsewhere _ inv (join_same w s.current runs.slot fresh)

  asleep-Inv : Inv (asleep s j) (enqueue q q_blocked s.current)
  asleep-Inv =
      subst (λ x. Inv (asleep s j) (enqueue x q_blocked s.current))
        (take-Unlisted q s.current (runs.unlisted running))
        (update_process-Inv joined-Inv s.current runs.slot q_blocked process runs.unlisted)

  asleep-Waiting : Waiting (asleep s j).links j (ws ++ s.current ∷ [])
  asleep-Waiting = Waiting-same (join-Waiting w s.current runs.slot fresh) _ λ a e.
      update_process-spared joined-Inv s.current runs.slot process runs.unlisted a e q_blocked

  asleep-eq : (asleep s j) ≡ moved (joined s j) s.current blocked st_blocked
  asleep-eq = update_process-eq (joined s j) s.current q_blocked process

  asleep-Runs : Runs (asleep s j) (enqueue q q_blocked s.current)
  asleep-Runs = rw asleep-eq (record {
    slot = runs.slot;
    unlisted = λ h. absurd (ground (arith, h));
    live = λ h. absurd (ground (arith, h));
    idle = λ h. absurd (ground (arith, process, h));
    unique = λ t h e. ground (arith, runs.unique t h, e);
  })

  asleep_state : is_run ((asleep s j).tasks (asleep s j).current).current_state ≡ false
  asleep_state = rw asleep-eq (ground arith)

  asleep_current : (asleep s j).current ≡ s.current
  asleep_current = rw asleep-eq refl

  asleep_idle : (asleep s j).idle_task ≡ s.idle_task
  asleep_idle = rw asleep-eq refl

  asleep-next_of : next_of (asleep s j) (enqueue q q_blocked s.current) ≡ next_of s q
  asleep-next_of = ap (λ d. head_or d (q q_ready)) asleep_idle

  next_of-ne-current : next_of s q ≢ s.current
  next_of-ne-current e = elim (next_of-cases inv runs) [
    | inl h ↦ not_idle s.current inv process (sym e ∙ sym h)
    | inr h ↦ cc (runs.unlisted running q_ready, subst (λ x. has x (q q_ready) ≡ true) e h)
  ]

  -- The scheduler then picks the next task.
  pub asleep-BlockedOn : BlockedOn s (sched_next_rr (asleep s j)) q j ws
  asleep-BlockedOn = record {
    waiting = Waiting-same asleep-Waiting _ (sched_next_rr-spared asleep-Inv asleep-Runs);
    queues =
        subst (λ x. Inv (sched_next_rr (asleep s j)) (take (enqueue q q_blocked s.current) x))
          asleep-next_of
          (subst
            (λ x.
              Inv (sched_next_rr (asleep s j))
                (take x (next_of (asleep s j) (enqueue q q_blocked s.current))))
            (rw asleep_state refl) d.inv);
    next = d.next.current ∙ asleep-next_of;
    left = λ e. next_of-ne-current (sym (d.next.current ∙ asleep-next_of) ∙ e);
  }
    where
      d : Scheduled (asleep s j) (sched_next_rr (asleep s j)) (enqueue q q_blocked s.current)
      d = sched_next_rr-Scheduled asleep-Inv asleep-Runs

-- What sys_semWait does at an entry in use whose value is not positive: the value falls by one, the
-- caller blocks behind the other waiters, and another task runs. When the caller is chosen again,
-- the call returns the creator's PID that the entry has then.
pub record Waits (k : Kernel) (semid : ℤ) (user : Bool) (q : Contents) (j : ℕ) (ws : List ℕ)
    : Type 0 where
  pub after : Kernel
  pub resume : Kernel → Run ℤ
  pub run : sys_sem_wait_extended semid user k ≡ switched after resume
  pub resumes : (k' : Kernel) → resume k' ≡ done (k'.semaphores j).creator_pid k'
  pub blocked_on : BlockedOn k.sched after.sched q j ws
  pub value : (after.semaphores j).value ≡ (k.semaphores j).value -ℤ pos 1
  pub others : (i : ℕ) → i ≢ j → after.semaphores i ≡ k.semaphores i

-- With an identifier on the side of 100000 that the mode allows, whose first entry is in use with a
-- value that falls below 0, and a caller as `Caller` says: sys_semWait blocks as `Waits` says.
pub sys_sem_wait-Waits :
    {k : Kernel} {q : Contents} {ws : List ℕ} (semid : ℤ) (user : Bool) (j : ℕ)
    → wrong_side semid user ≡ false
    → find_sem num_sems semid 0 k ≡ some j
    → (k.semaphores j).free ≡ false
    → is_neg ((k.semaphores j).value -ℤ pos 1) ≡ true
    → Caller k.sched q ws
    → Waiting k.sched.links j ws
    → Waits k semid user q j ws
unfolding sys_sem_wait_extended wait_on wait_live wait_blocked
sys_sem_wait-Waits {k} semid user j side found used neg c w =
    let b = asleep-BlockedOn c w in
    let sem : Semaphore = record (k.semaphores j) {
      value = (k.semaphores j).value -ℤ pos 1;
      free = false;
    } in
    record {
      after = record (set_sem k j sem) { sched = sched_next_rr (asleep k.sched j) };
      resume = λ k'. done (k'.semaphores j).creator_pid k';
      run =
          rw (side, found, used, neg)
            (rw
              (yield-switched (record (set_sem k j sem) { sched = asleep k.sched j })
                (λ e. b.left (e ∙ asleep_current c w)))
              refl);
      resumes = λ k'. refl;
      blocked_on = b;
      value = ground arith;
      others = λ i ne. ground arith;
    }
