-- ===== src/Sched/Spared.antt =====
-- The scheduler writes links only at the queue heads and at the `list` fields of tasks: the rings of
-- semaphores, children and waiters are spared. The other way round, what is written at those leaves
-- the queues.
use so2_joan_erik.Common.{
  ℕ, ◌-◌, ◌%◌, ◌≤◌, ◌<◌, ◌≡◌, refl, ◌≢◌, true, false, ◌&&◌, not, arith, if◌then◌else◌, has, sym,
  subst, ◌∙◌, inl, inr, ◌⊎◌, Bool-cases, pos, is_pos,
}
use so2_joan_erik.Links.{Links, null, list_del}
use so2_joan_erik.Links.Ring.{Ring-frame, SameAt, list_del_same, list_add_tail_same}
use so2_joan_erik.Task.{
  State, st_run, st_free, st_ready, st_blocked, st_readblocked, is_run, IsSlot, list_of,
}
use so2_joan_erik.Sched.{
  Sched, set_links, unlink, update_process_state_rr, requeue_current, switch_to, task_switch,
  dispatch, sched_next_rr,
}
use so2_joan_erik.Sched.Queues.{
  Queue, q_free, q_ready, q_blocked, q_read_blocked, head_of, Contents, Holds, ring_of, has-anchors,
  has-anchors_sub, head_of-lt, Unlisted,
}
use so2_joan_erik.Sched.Invariant.{Inv, In, unlink-Holds}
use so2_joan_erik.Sched.Moves.{
  update_process-eq, update_process_run-eq, update_idle-eq, update_idle_run-eq,
}
use so2_joan_erik.Sched.RoundRobin.{
  Runs, next_of, next_task-next_of, requeue_current-Inv, next_of-IsSlot, next_of-cases,
  requeued-has,
}
use so2_joan_erik.Sched.Unchanged.{requeue_current_same}

-- Neither a queue head nor the `list` field of a task.
pub record IsElsewhere (a : ℕ) : Type 0 where
  pub above : 64 ≤ a
  pub off : a % 4096 ≢ 8

pub ring_of-elsewhere :
    {m : Links} {q : Contents}
    → Holds m q
    → (k : Queue) (a : ℕ) → IsElsewhere a
    → has a (ring_of q k) ≡ false
ring_of-elsewhere {q} h k a e = ground (
  arith,
  e,
  head_of-lt k,
  has-anchors_sub a (q k),
  λ (x : has (a - 8) (q k) ≡ true). h.slots k (a - 8) x,
)

-- A change of links elsewhere leaves the queues.
pub Holds-elsewhere :
    {m : Links} (m' : Links) {q : Contents}
    → Holds m q
    → ((a : ℕ) → (a < 64) ⊎ (a % 4096 ≡ 8) → SameAt m m' a)
    → Holds m' q
Holds-elsewhere m' {q} h same = record {
  rings = λ k. Ring-frame m' (h.rings k) λ a i. same a (at k a i);
  slots = h.slots;
  apart = h.apart;
}
  where
    at : (k : Queue) (a : ℕ) → has a (ring_of q k) ≡ true → (a < 64) ⊎ (a % 4096 ≡ 8)
    at k a i = ground (
      arith,
      head_of-lt k,
      has-anchors_sub a (q k),
      λ (x : has (a - 8) (q k) ≡ true). h.slots k (a - 8) x,
    )

pub Inv-elsewhere :
    {s : Sched} (m' : Links) {q : Contents}
    → Inv s q
    → ((a : ℕ) → (a < 64) ⊎ (a % 4096 ≡ 8) → SameAt s.links m' a)
    → Inv (set_links s m') q
Inv-elsewhere m' i same = record {
  holds = Holds-elsewhere m' i.holds same;
  tagged = i.tagged;
  listed = i.listed;
  idle_slot = i.idle_slot;
  idle_pid = i.idle_pid;
  idle_unlisted = i.idle_unlisted;
}

module _ {s : Sched} {q : Contents} (i : Inv s q) (t : ℕ) (slot : IsSlot t)
    (p : is_pos (s.tasks t).pid ≡ true)
    (run : is_run (s.tasks t).current_state ≡ true → Unlisted q t) (a : ℕ) (e : IsElsewhere a) where
  pub unlink-spared : SameAt s.links (unlink s t).links a
  unfolding unlink
  unlink-spared = rw p (go (s.tasks t).current_state (i.listed t slot p))
    where
      del : (k : Queue) → has t (q k) ≡ true → SameAt s.links (list_del s.links (list_of t)) a
      del k h =
          list_del_same (i.holds.rings k) (list_of t) a (rw (has-anchors t (q k)) h)
            (ring_of-elsewhere i.holds k a e)

      go :
          (st : State)
          → In q st t
          → SameAt s.links
              (if true && not (is_run st)
                then set_links s (list_del s.links (list_of t))
                else s).links
              a
      go st_run l = (refl, refl)
      go st_free l = del q_free l
      go st_ready l = del q_ready l
      go st_blocked l = del q_blocked l
      go st_readblocked l = del q_read_blocked l

  pub update_process-spared :
      (k : Queue) → SameAt s.links (update_process_state_rr s t (head_of k)).links a
  update_process-spared k = rw (update_process-eq s t k p) (
      let h = unlink-Holds i t p slot run in
      let u = unlink-spared in
      let add =
        list_add_tail_same (h.rings k) (list_of t) a (ground (arith, e, slot))
          (ring_of-elsewhere h k a e) in
      (add.0 ∙ u.0, add.1 ∙ u.1))

  pub update_process_run-spared : SameAt s.links (update_process_state_rr s t null).links a
  update_process_run-spared = rw (update_process_run-eq s t (ground arith)) unlink-spared

module _ {s : Sched} {q : Contents} (i : Inv s q) (a : ℕ) (e : IsElsewhere a) where
  -- So does the idle task, which is in no queue.
  update_idle-spared :
      (t : ℕ) (k : Queue)
      → t ≡ s.idle_task
      → SameAt s.links (update_process_state_rr s t (head_of k)).links a
  update_idle-spared t k h =
      rw (update_idle-eq s t k (subst (λ x. (s.tasks x).pid ≡ pos 0) (sym h) i.idle_pid))
        (refl, refl)

  update_idle_run-spared :
      (t : ℕ) → t ≡ s.idle_task → SameAt s.links (update_process_state_rr s t null).links a
  update_idle_run-spared t h =
      rw (update_idle_run-eq s t (subst (λ x. (s.tasks x).pid ≡ pos 0) (sym h) i.idle_pid))
        (refl, refl)

  requeue_current-spared : Runs s q → SameAt s.links (requeue_current s).links a
  unfolding requeue_current
  requeue_current-spared r = elim (Bool-cases (is_run (s.tasks s.current).current_state)) [
    | inr h ↦ rw h (refl, refl)
    | inl h ↦ rw h (elim (Bool-cases (is_pos (s.tasks s.current).pid)) [
      | inl p ↦ update_process-spared i s.current r.slot p r.unlisted a e q_ready
      | inr p ↦ update_idle-spared s.current q_ready (r.idle (ground (arith, r.live h)))
    ])
  ]

  dispatch-spared :
      (t : ℕ)
      → IsSlot t
      → (t ≡ s.idle_task) ⊎ (has t (q q_ready) ≡ true)
      → SameAt s.links (dispatch s t).links a
  unfolding dispatch switch_to task_switch
  dispatch-spared t slot h = rest (up h)
    where
      up :
          (t ≡ s.idle_task) ⊎ (has t (q q_ready) ≡ true)
          → SameAt s.links (update_process_state_rr s t null).links a
      up (inl x) = update_idle_run-spared t x
      up (inr x) =
          let f = i.tagged q_ready t x in
          update_process_run-spared i t slot (ground (arith, f)) (λ r. ground (arith, f, r)) a e

      rest :
          SameAt s.links (update_process_state_rr s t null).links a
          → SameAt s.links (dispatch s t).links a
      rest x = ground (arith, x)

-- A call of the scheduler writes links nowhere else.
pub sched_next_rr-spared :
    {s : Sched} {q : Contents}
    → Inv s q
    → Runs s q
    → (a : ℕ) → IsElsewhere a
    → SameAt s.links (sched_next_rr s).links a
unfolding sched_next_rr
sched_next_rr-spared {s} {q} i r a e = rw (next_task-next_of i) (
    let u = requeue_current-spared i a e r in
    let d =
      dispatch-spared (requeue_current-Inv i r) a e (next_of s q) (next_of-IsSlot i r)
        (elim (next_of-cases i r) [
          | inl x ↦ inl (sym x ∙ sym (requeue_current_same s).idle)
          | inr x ↦ inr (requeued-has i r x)
        ]) in
    (d.0 ∙ u.0, d.1 ∙ u.1))
