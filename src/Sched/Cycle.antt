-- ===== src/Sched/Cycle.antt =====
-- Processes that take turns: the ready processes and the running one, at one call of sched_next_rr
-- after the other.
use so2_joan_erik.Common.{
  ℕ, ◌≡◌, refl, ◌≢◌, true, false, List, Distinct, ◌∷◌, ◌++◌, [], arith, has, has-append, sym, subst,
  ap, ◌∙◌, inl, inr, Bool-cases, is_pos,
}
use so2_joan_erik.Links.{null}
use so2_joan_erik.Task.{st_run, is_run, IsSlot}
use so2_joan_erik.Sched.{
  Sched, sched_next_rr, next_task, requeue_current, dispatch, switch_to, task_switch,
}
use so2_joan_erik.Sched.Queues.{Queue, q_ready, eqb_queue, eqb_queue→eq, Contents, Unlisted}
use so2_joan_erik.Sched.Invariant.{Inv, Holds-Distinct}
use so2_joan_erik.Sched.Unchanged.{requeue_current_same, update_process_state_rr_same}
use so2_joan_erik.Sched.RoundRobin.{Runs, after, sched_next_rr_rotates}

switch_to_tasks :
    (s : Sched) (t : ℕ)
    → ((switch_to s t).tasks ≡ s.tasks) × ((switch_to s t).idle_task ≡ s.idle_task)
unfolding switch_to task_switch
switch_to_tasks s t = (ground arith, ground arith)

-- The scheduler changes no PID, no quantum and no parent.
pub sched_next_rr_same :
    (s : Sched) (u : ℕ)
    → (((sched_next_rr s).tasks u).pid ≡ (s.tasks u).pid)
      × (((sched_next_rr s).tasks u).quantum ≡ (s.tasks u).quantum)
      × (((sched_next_rr s).tasks u).pare ≡ (s.tasks u).pare)
unfolding sched_next_rr dispatch
sched_next_rr_same s u =
    let t : ℕ = next_task s in
    let a = requeue_current_same s in
    let b = update_process_state_rr_same (requeue_current s) t null in
    (
      ap (λ f. (f u).pid) (switch_to_tasks _ t).0 ∙ b.pid u ∙ a.pid u,
      ap (λ f. (f u).quantum) (switch_to_tasks _ t).0 ∙ b.quantum u ∙ a.quantum u,
      ap (λ f. (f u).pare) (switch_to_tasks _ t).0 ∙ b.pare u ∙ a.pare u,
    )

-- The running process and the ready ones.
abbrev pub turns : Sched → Contents → List ℕ
turns s q = s.current ∷ q q_ready

-- A process runs, and no two of those that take turns have one PID.
pub record Cycling (s : Sched) (q : Contents) : Type 0 where
  pub inv : Inv s q
  pub slot : IsSlot s.current
  pub running : (s.tasks s.current).current_state ≡ st_run
  pub process : is_pos (s.tasks s.current).pid ≡ true
  pub unlisted : Unlisted q s.current
  pub unique :
      (t u : ℕ)
      → has t (turns s q) ≡ true
      → has u (turns s q) ≡ true
      → (s.tasks t).pid ≡ (s.tasks u).pid
      → t ≡ u

pub Cycling-Runs : {s : Sched} {q : Contents} → Cycling s q → Runs s q
Cycling-Runs {s} {q} c = record {
  slot = c.slot;
  unlisted = λ h. c.unlisted;
  live = λ h. ground (arith, c.process);
  idle = λ h. ground (arith, c.process, h);
  unique = λ t h e. c.unique t s.current (ground arith) (ground arith) e;
}

module _ {s : Sched} {q : Contents} (c : Cycling s q) (t : ℕ) (ts : List ℕ)
    (e : q q_ready ≡ t ∷ ts) where
  pub rotated :
      ((sched_next_rr s).current ≡ t)
      × (((sched_next_rr s).tasks t).current_state ≡ st_run)
      × Inv (sched_next_rr s) (after s q)
      × (after s q q_ready ≡ ts ++ s.current ∷ [])
      × ((k : Queue) → k ≢ q_ready → after s q k ≡ q k)
  rotated = sched_next_rr_rotates c.inv (Cycling-Runs c) t ts e (ap is_run c.running) c.process

  first : has t (q q_ready) ≡ true
  first = rw e (ground arith)

  members : (u : ℕ) → has u (turns (sched_next_rr s) (after s q)) ≡ has u (turns s q)
  members u = rw (rotated.0, rotated.3, e, has-append u ts (s.current ∷ [])) (ground arith)

  not_caller : t ≢ s.current
  not_caller p = ground (arith, c.unlisted q_ready, subst (λ x. has x (q q_ready) ≡ true) p first)

  behind : has t ts ≡ false
  behind = (subst Distinct e (Holds-Distinct c.inv.holds q_ready)).0

  next-Unlisted : Unlisted (after s q) t
  next-Unlisted k = elim (Bool-cases (eqb_queue k q_ready)) [
    | inl p ↦
        rw (eqb_queue→eq k q_ready p, rotated.3, has-append t ts (s.current ∷ []), behind)
          (ground (arith, not_caller))
    | inr p ↦
        let ne : k ≢ q_ready = λ h. cc (p, subst (λ x. eqb_queue x q_ready ≡ true) (sym h) refl) in
        rw (rotated.4 k ne)
          (ground (arith, λ (h : has t (q k) ≡ true). ne (c.inv.holds.apart k q_ready t h first)))
  ]

  -- After a call of the scheduler the processes take turns still.
  pub sched_next_rr-Cycling : Cycling (sched_next_rr s) (after s q)
  sched_next_rr-Cycling = record {
    inv = rotated.2;
    slot = subst IsSlot (sym rotated.0) (c.inv.holds.slots q_ready t first);
    running = ap (λ x. ((sched_next_rr s).tasks x).current_state) rotated.0 ∙ rotated.1;
    process =
        rw ((sched_next_rr_same s (sched_next_rr s).current).0, rotated.0)
          (ground (arith, c.inv.tagged q_ready t first));
    unlisted = subst (Unlisted (after s q)) (sym rotated.0) next-Unlisted;
    unique = λ u v hu hv p.
        c.unique u v (sym (members u) ∙ hu) (sym (members v) ∙ hv)
          (sym (sched_next_rr_same s u).0 ∙ p ∙ (sched_next_rr_same s v).0);
  }
