-- ===== src/Semaphore/Signal.antt =====
-- sys_semSignal: the oldest waiter becomes ready.
use so2_joan_erik.Common.{
  ℕ, ◌≡◌, refl, ◌≢◌, Bool, true, false, List, [], ◌∷◌, ◌++◌, arith, ◌==◌, Bool-cases, has,
  erase_absent, has-erase_ne, has-erase-false, sym, subst, ap, ◌∙◌, ◌⊎◌, inl, inr, ne→==, some, ℤ,
  pos, ◌+ℤ◌, leb_ℤ, is_pos,
}
use so2_joan_erik.Links.{list_del}
use so2_joan_erik.Links.Ring.{head_or}
use so2_joan_erik.Task.{st_ready, is_run, sem_list_of, readyqueue, num_sems}
use so2_joan_erik.Sched.{Sched, set_links, update_process_state_rr, sched_next_rr}
use so2_joan_erik.Sched.Queues.{q_ready, q_blocked, Contents, take, enqueue, Unlisted, has-enqueue}
use so2_joan_erik.Sched.Invariant.{Inv}
use so2_joan_erik.Sched.Moves.{moved, update_process-eq, update_process-Inv}
use so2_joan_erik.Sched.RoundRobin.{Runs, next_of, after, Scheduled, sched_next_rr-Scheduled}
use so2_joan_erik.Sched.Spared.{Inv-elsewhere, update_process-spared, sched_next_rr-spared}
use so2_joan_erik.Kernel.{Semaphore, Kernel, Run, done, switched, yield-switched}
use so2_joan_erik.Semaphore.{
  set_sem, find_sem, wrong_side, wake_first, signal_live, signal_on, sys_sem_signal_extended,
}
use so2_joan_erik.Semaphore.Waiting.{
  Waiting, leave-Waiting, leave_same, Waiting-same, list_first-oldest, first-IsSlot,
  list_head_to_task_struct-sem_list_of,
}

-- The current task is a running process, and `t` a blocked one with another PID.
pub record Waker (s : Sched) (q : Contents) (t : ℕ) : Type 0 where
  pub inv : Inv s q
  pub runs : Runs s q
  pub running : is_run (s.tasks s.current).current_state ≡ true
  pub sleeps : has t (q q_blocked) ≡ true
  pub other_pid : (s.tasks t).pid ≢ (s.tasks s.current).pid

-- The waiter out of the semaphore's queue, and then ready.
abbrev pub released : Sched → ℕ → Sched
released s t = set_links s (list_del s.links (sem_list_of t))

abbrev pub awake : Sched → ℕ → Sched
awake s t = update_process_state_rr (released s t) t readyqueue

abbrev pub woken : Contents → ℕ → Contents
woken q t = enqueue (take q t) q_ready t

-- The state after the oldest waiter `t` of the semaphore `j` has been woken.
pub record WokenOn (s s' : Sched) (q : Contents) (j t : ℕ) (ws : List ℕ) : Type 0 where
  -- The others wait on, in their order.
  pub waiting : Waiting s'.links j ws
  -- The waiter went to the end of the ready queue, and then the scheduler was called.
  pub queues : Inv s' (after (awake s t) (woken q t))
  -- The oldest ready process runs, or the woken one if no other was ready.
  pub next : s'.current ≡ head_or t (q q_ready)

head_or-snoc : (d t : ℕ) (xs : List ℕ) → head_or d (xs ++ t ∷ []) ≡ head_or t xs
head_or-snoc d t [] = refl
head_or-snoc d t (x ∷ xs) = refl

has-head_or : (t : ℕ) (xs : List ℕ) → (head_or t xs ≡ t) ⊎ (has (head_or t xs) xs ≡ true)
has-head_or t [] = inl refl
has-head_or t (x ∷ xs) = inr (ground arith)

module _ {s : Sched} {q : Contents} {j t : ℕ} {ws : List ℕ} (c : Waker s q t)
    (w : Waiting s.links j (t ∷ ws)) where
  open c use {inv, runs, running, sleeps, other_pid}

  tag : is_pos (s.tasks t).pid ≡ true
  tag = ground (arith, inv.tagged q_blocked t sleeps)

  not_run : is_run (s.tasks t).current_state ≡ false
  not_run = ground (arith, inv.tagged q_blocked t sleeps)

  released-Inv : Inv (released s t) q
  released-Inv = Inv-elsewhere _ inv (leave_same w)

  awake-eq : awake s t ≡ moved (released s t) t readyqueue st_ready
  awake-eq = update_process-eq (released s t) t q_ready tag

  awake-Inv : Inv (awake s t) (woken q t)
  awake-Inv = update_process-Inv released-Inv t (first-IsSlot w) q_ready tag (λ r. cc (r, not_run))

  awake-Waiting : Waiting (awake s t).links j ws
  awake-Waiting = Waiting-same (leave-Waiting w) _ λ a e.
      update_process-spared released-Inv t (first-IsSlot w) tag (λ r. cc (r, not_run)) a e q_ready

  current-ne : s.current ≢ t
  current-ne e = cc (subst (λ x. is_run (s.tasks x).current_state ≡ true) e running, not_run)

  woken-Unlisted : Unlisted (woken q t) s.current
  woken-Unlisted k = ground (
    arith,
    has-enqueue (take q t) k q_ready s.current t,
    current-ne,
    runs.unlisted running k,
    has-erase-false s.current t (q k),
  )

  awake-Runs : Runs (awake s t) (woken q t)
  awake-Runs = rw awake-eq (record {
    slot = runs.slot;
    unlisted = λ h. woken-Unlisted;
    live = λ h. rw (ne→== current-ne) (runs.live running);
    idle = rw (ne→== current-ne) runs.idle;
    unique = λ u h. rw (ne→== current-ne) (elim (Bool-cases (u == t)) [
      | inl e ↦ rw e (λ p. absurd (other_pid p))
      | inr e ↦ rw e (
          runs.unique u (
            ground
              (arith, has-enqueue (take q t) q_ready q_ready u t, has-erase_ne u t (q q_ready), h)))
    ]);
  })

  not_ready : has t (q q_ready) ≡ false
  not_ready = elim (Bool-cases (has t (q q_ready))) [
    | inl e ↦ absurd (ground (arith, inv.holds.apart q_ready q_blocked t e sleeps))
    | inr e ↦ e
  ]

  awake-next_of : next_of (awake s t) (woken q t) ≡ head_or t (q q_ready)
  awake-next_of =
      head_or-snoc (awake s t).idle_task t (take q t q_ready)
      ∙ ap (head_or t) (erase_absent t (q q_ready) not_ready)

  next-ne-current : head_or t (q q_ready) ≢ s.current
  next-ne-current e = elim (has-head_or t (q q_ready)) [
    | inl h ↦ current-ne (sym e ∙ h)
    | inr h ↦ cc (runs.unlisted running q_ready, subst (λ x. has x (q q_ready) ≡ true) e h)
  ]

  awake_current : (awake s t).current ≡ s.current
  awake_current = rw awake-eq refl

  pub awake-WokenOn : WokenOn s (sched_next_rr (awake s t)) q j t ws
  awake-WokenOn = record {
    waiting = Waiting-same awake-Waiting _ (sched_next_rr-spared awake-Inv awake-Runs);
    queues = d.inv;
    next = d.next.current ∙ awake-next_of;
  }
    where
      d : Scheduled (awake s t) (sched_next_rr (awake s t)) (woken q t)
      d = sched_next_rr-Scheduled awake-Inv awake-Runs

  pub awake_left : (sched_next_rr (awake s t)).current ≢ (awake s t).current
  awake_left e = next-ne-current (sym awake-WokenOn.next ∙ e ∙ awake_current)

-- What sys_semSignal does at an entry in use whose value is negative: the value grows by one, the
-- oldest waiter becomes ready, and another task runs. When the caller is chosen again, the call
-- returns the value that the entry has then.
pub record Signals (k : Kernel) (semid : ℤ) (user : Bool) (q : Contents) (j t : ℕ) (ws : List ℕ)
    : Type 0 where
  pub after : Kernel
  pub resume : Kernel → Run ℤ
  pub run : sys_sem_signal_extended semid user k ≡ switched after resume
  pub resumes : (k' : Kernel) → resume k' ≡ done (k'.semaphores j).value k'
  pub woken_on : WokenOn k.sched after.sched q j t ws
  pub value : (after.semaphores j).value ≡ (k.semaphores j).value +ℤ pos 1
  pub others : (i : ℕ) → i ≢ j → after.semaphores i ≡ k.semaphores i

wake_first-awake :
    (k : Kernel) {j t : ℕ} {ws : List ℕ}
    → Waiting k.sched.links j (t ∷ ws)
    → wake_first j k ≡ done tt (record k { sched = awake k.sched t })
unfolding wake_first
wake_first-awake k {t} w =
    rw (list_first-oldest w, list_head_to_task_struct-sem_list_of t (first-IsSlot w)) refl

-- With an identifier on the side of 100000 that the mode allows, whose first entry is in use with a
-- value that grows to 0 at most, a caller as `Waker` says and a waiter: sys_semSignal wakes the oldest
-- waiter as `Signals` says.
pub sys_sem_signal-Signals :
    {k : Kernel} {q : Contents} {t : ℕ} {ws : List ℕ} (semid : ℤ) (user : Bool) (j : ℕ)
    → wrong_side semid user ≡ false
    → find_sem num_sems semid 0 k ≡ some j
    → (k.semaphores j).free ≡ false
    → leb_ℤ ((k.semaphores j).value +ℤ pos 1) (pos 0) ≡ true
    → Waker k.sched q t
    → Waiting k.sched.links j (t ∷ ws)
    → Signals k semid user q j t ws
unfolding sys_sem_signal_extended signal_on signal_live
sys_sem_signal-Signals {k} {t} semid user j side found used low c w =
    let b = awake-WokenOn c w in
    let sem : Semaphore = record (k.semaphores j) {
      value = (k.semaphores j).value +ℤ pos 1;
      free = false;
    } in
    record {
      after = record (set_sem k j sem) { sched = sched_next_rr (awake k.sched t) };
      resume = λ k'. done (k'.semaphores j).value k';
      run =
          rw (side, found, used, low)
            (rw
              (
                wake_first-awake (set_sem k j sem) w,
                yield-switched (record (set_sem k j sem) { sched = awake k.sched t })
                    (awake_left c w),
              )
              refl);
      resumes = λ k'. refl;
      woken_on = b;
      value = ground arith;
      others = λ i ne. ground arith;
    }
