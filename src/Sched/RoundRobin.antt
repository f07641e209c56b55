-- ===== src/Sched/RoundRobin.antt =====
-- sched_next_rr is a round robin: the oldest ready process runs, the running one goes to the end.
use so2_joan_erik.Common.{
  ℕ, ◌≡◌, refl, ◌≢◌, true, false, ◌&&◌, List, [], ◌∷◌, ◌++◌, arith, if◌then◌else◌, has, has-append,
  erase_absent, sym, subst, ap, ◌∙◌, inl, inr, ◌⊎◌, Bool-cases, pos, is_neg, is_pos, ==_refl,
}
use so2_joan_erik.Links.Ring.{is_nil, head_or, list_empty-nil, list_first-head_or}
use so2_joan_erik.Task.{st_run, is_run, IsSlot, list_of, readyqueue, list_head_to_task_struct}
use so2_joan_erik.Sched.{Sched, next_task, requeue_current, sched_next_rr, update_process_state_rr}
use so2_joan_erik.Sched.Queues.{
  Queue, q_ready, Contents, anchors, take, enqueue, Unlisted, enqueue_ne,
}
use so2_joan_erik.Sched.Invariant.{Inv, take-Unlisted}
use so2_joan_erik.Sched.Unchanged.{SameButState, requeue_current_same}
use so2_joan_erik.Sched.Dispatch.{Dispatched, Dispatched-same, dispatch-Inv, dispatch-Dispatched}
use so2_joan_erik.Sched.Moves.{update_process-Inv, update_idle-Inv}

-- What the scheduler relies on of the task that calls it. If it still runs, it is in no queue and
-- has no negative PID, and no ready process has its PID. Only the idle task has PID 0.
pub record Runs (s : Sched) (q : Contents) : Type 0 where
  pub slot : IsSlot s.current
  pub unlisted : is_run (s.tasks s.current).current_state ≡ true → Unlisted q s.current
  pub live :
      is_run (s.tasks s.current).current_state ≡ true → is_neg (s.tasks s.current).pid ≡ false
  pub idle : (s.tasks s.current).pid ≡ pos 0 → s.current ≡ s.idle_task
  pub unique :
      (t : ℕ) → has t (q q_ready) ≡ true → (s.tasks t).pid ≡ (s.tasks s.current).pid → t ≡ s.current

-- The specification: the ready process that runs next, or the idle task; and the queues after the
-- running process has gone to the end of the ready queue.
abbrev pub next_of : Sched → Contents → ℕ
next_of s q = head_or s.idle_task (q q_ready)

abbrev pub requeued : Sched → Contents → Contents
requeued s q =
    if is_run (s.tasks s.current).current_state && is_pos (s.tasks s.current).pid
    then enqueue q q_ready s.current
    else q

pub list_head_to_task_struct-list_of : (t : ℕ) → IsSlot t → list_head_to_task_struct (list_of t) ≡ t
unfolding list_head_to_task_struct
list_head_to_task_struct-list_of t h = omega arith

module _ {s : Sched} {q : Contents} (i : Inv s q) where
  pub next_task-next_of : next_task s ≡ next_of s q
  unfolding next_task
  next_task-next_of =
      rw (list_empty-nil (i.holds.rings q_ready), list_first-head_or (i.holds.rings q_ready))
        (go (q q_ready) (i.holds.slots q_ready))
    where
      go :
          (ts : List ℕ)
          → ((t : ℕ) → has t ts ≡ true → IsSlot t)
          → (if is_nil (anchors ts)
              then s.idle_task
              else list_head_to_task_struct (head_or readyqueue (anchors ts)))
            ≡ head_or s.idle_task ts
      go [] slots = refl
      go (t ∷ ts) slots = list_head_to_task_struct-list_of t (slots t (ground arith))

  pub requeue_current-Inv : Runs s q → Inv (requeue_current s) (requeued s q)
  unfolding requeue_current
  requeue_current-Inv r = elim (Bool-cases (is_run (s.tasks s.current).current_state)) [
    | inr e ↦ rw e i
    | inl e ↦ rw e (elim (Bool-cases (is_pos (s.tasks s.current).pid)) [
      | inl p ↦ rw p (
          subst
            (λ x.
              Inv (update_process_state_rr s s.current readyqueue) (enqueue x q_ready s.current))
            (take-Unlisted q s.current (r.unlisted e))
            (update_process-Inv i s.current r.slot q_ready p r.unlisted))
      | inr p ↦
          rw p (update_idle-Inv i s.current r.slot q_ready (r.idle (ground (arith, r.live e))))
    ])
  ]

abbrev pub after : Sched → Contents → Contents
after s q = take (requeued s q) (next_of s q)

-- The outcome of a call of the scheduler.
pub record Scheduled (s s' : Sched) (q : Contents) : Type 0 where
  pub inv : Inv s' (after s q)
  pub next : Dispatched s s' (next_of s q)

module _ {s : Sched} {q : Contents} (i : Inv s q) (r : Runs s q) where
  -- The next task is the idle task or in the ready queue.
  pub next_of-cases : (s.idle_task ≡ next_of s q) ⊎ (has (next_of s q) (q q_ready) ≡ true)
  next_of-cases = go (q q_ready)
    where
      go :
          (ts : List ℕ)
          → (s.idle_task ≡ head_or s.idle_task ts) ⊎ (has (head_or s.idle_task ts) ts ≡ true)
      go [] = inl refl
      go (t ∷ ts) = inr (ground arith)

  pub next_of-IsSlot : IsSlot (next_of s q)
  next_of-IsSlot = elim next_of-cases [
    | inl e ↦ subst IsSlot e i.idle_slot
    | inr e ↦ i.holds.slots q_ready (next_of s q) e
  ]

  pub next_of-live : is_neg (s.tasks (next_of s q)).pid ≡ false
  next_of-live = elim next_of-cases [
    | inl e ↦ subst (λ t. is_neg (s.tasks t).pid ≡ false) e (rw i.idle_pid refl)
    | inr e ↦ ground (arith, i.tagged q_ready (next_of s q) e)
  ]

  pub next_of_unique :
      (s.tasks (next_of s q)).pid ≡ (s.tasks s.current).pid → next_of s q ≡ s.current
  next_of_unique p = elim next_of-cases [
    | inl e ↦ sym e ∙ sym (r.idle (sym p ∙ subst (λ t. (s.tasks t).pid ≡ pos 0) e i.idle_pid))
    | inr e ↦ r.unique (next_of s q) e p
  ]

  pub requeued-has :
      has (next_of s q) (q q_ready) ≡ true → has (next_of s q) (requeued s q q_ready) ≡ true
  requeued-has h = ground (arith, has-append (next_of s q) (q q_ready) (s.current ∷ []))

  -- On queues as `Inv` says and for a caller as `Runs` says: the oldest ready process, or the idle
  -- task if there is none, becomes current and runs with its own quantum; a process that was running
  -- goes to the end of the ready queue. If the machine held the directory or the stack of the caller,
  -- it holds that of the new task.
  pub sched_next_rr-Scheduled : Scheduled s (sched_next_rr s) q
  unfolding sched_next_rr
  sched_next_rr-Scheduled = rw (next_task-next_of i) (record {
    inv =
        dispatch-Inv (next_of s q) (requeue_current-Inv i r) next_of-IsSlot
          (elim next_of-cases [ inl e ↦ inl (sym e ∙ sym u.idle) | inr e ↦ inr (requeued-has e) ]);
    next = Dispatched-same (next_of s q) s.current u (
        dispatch-Dispatched (requeue_current s) (next_of s q)
          (ap is_neg (u.pid (next_of s q)) ∙ next_of-live)
          (λ e.
            next_of_unique
              (sym (u.pid (next_of s q)) ∙ e ∙ u.pid _ ∙ ap (λ x. (s.tasks x).pid) u.current)
            ∙ sym u.current));
  })
    where
      u : SameButState s (requeue_current s) s.current
      u = requeue_current_same s

  -- On queues as `Inv` says, with a ready process `t` in front and a running process as caller that
  -- is as `Runs` says: `t` becomes current and runs,
  -- the caller goes to the end of the ready queue, and the other queues keep their tasks.
  pub sched_next_rr_rotates :
      (t : ℕ) (ts : List ℕ)
      → q q_ready ≡ t ∷ ts
      → is_run (s.tasks s.current).current_state ≡ true
      → is_pos (s.tasks s.current).pid ≡ true
      → ((sched_next_rr s).current ≡ t)
        × (((sched_next_rr s).tasks t).current_state ≡ st_run)
        × Inv (sched_next_rr s) (after s q)
        × (after s q q_ready ≡ ts ++ s.current ∷ [])
        × ((k : Queue) → k ≢ q_ready → after s q k ≡ q k)
  sched_next_rr_rotates t ts e run p = (
    d.next.current ∙ n,
    subst (λ x. ((sched_next_rr s).tasks x).current_state ≡ st_run) n d.next.state,
    d.inv,
    rw (run, p, e, ==_refl t) refl,
    other,
  )
    where
      d : Scheduled s (sched_next_rr s) q
      d = sched_next_rr-Scheduled

      n : next_of s q ≡ t
      n = rw e refl

      first : has t (q q_ready) ≡ true
      first = rw e (ground arith)

      other : (k : Queue) → k ≢ q_ready → after s q k ≡ q k
      other k ne =
          rw (run, p, n)
            (rw (enqueue_ne q k q_ready s.current ne) (
              erase_absent t (q k) (
                ground
                  (arith, λ (x : has t (q k) ≡ true). ne (i.holds.apart k q_ready t x first)))))
