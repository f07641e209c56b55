-- ===== src/Sched/Invariant.antt =====
-- The invariant of the scheduler: each queue holds the tasks whose state says so, and
-- update_process_state_rr moves a task between queues.
use mathlib.Core.Path.{fun_ext}
use so2_joan_erik.Common.{
  ℕ, ◌≡◌, refl, ◌≢◌, Bool, true, false, ◌||◌, ◌&&◌, not, List, [], ◌∷◌, arith, ◌==◌, if◌then◌else◌,
  has, Distinct, has-erase_self, erase_absent, sym, subst, ◌∙◌, inl, inr, Bool-cases, pos, is_pos,
  ==→eq,
}
use so2_joan_erik.Links.{Links, list_del}
use so2_joan_erik.Task.{
  State, st_run, st_free, st_ready, st_blocked, st_readblocked, is_run, Task, IsSlot, list_of,
}
use so2_joan_erik.Sched.{Sched, update_task, set_links, unlink}
use so2_joan_erik.Sched.Queues.{
  Queue, q_free, q_ready, q_blocked, q_read_blocked, Contents, anchors, Holds, has-anchors, take,
  Unlisted, list_del-take,
}

-- The state of the tasks of a queue. A task whose fork failed waits in the free queue as running.
abbrev pub fits_state : Queue → State → Bool
fits_state q_free st_free = true
fits_state q_free st_run = true
fits_state q_ready st_ready = true
fits_state q_blocked st_blocked = true
fits_state q_read_blocked st_readblocked = true
fits_state _ _ = false

abbrev pub is_free : Queue → Bool
is_free q_free = true
is_free _ = false

abbrev pub fits : Queue → Task → Bool
fits k task = fits_state k task.current_state && (is_free k || is_pos task.pid)

-- The state that update_process_state_rr gives for a queue.
abbrev pub state_of : Queue → State
state_of q_free = st_free
state_of q_ready = st_ready
state_of q_blocked = st_blocked
state_of q_read_blocked = st_readblocked

abbrev pub In : Contents → State → ℕ → Type 0
In q st_run t = Unit {0}
In q st_free t = has t (q q_free) ≡ true
In q st_ready t = has t (q q_ready) ≡ true
In q st_blocked t = has t (q q_blocked) ≡ true
In q st_readblocked t = has t (q q_read_blocked) ≡ true

pub record Inv (s : Sched) (q : Contents) : Type 0 where
  -- The links hold the queues.
  pub holds : Holds s.links q
  -- A queued task has the state of its queue, and a process but for the free queue.
  pub tagged : (k : Queue) (t : ℕ) → has t (q k) ≡ true → fits k (s.tasks t) ≡ true
  -- A process that does not run is in the queue of its state.
  pub listed : (t : ℕ) → IsSlot t → is_pos (s.tasks t).pid ≡ true → In q (s.tasks t).current_state t
  -- The idle task has PID 0 and is in no queue.
  pub idle_slot : IsSlot s.idle_task
  pub idle_pid : (s.tasks s.idle_task).pid ≡ pos 0
  pub idle_unlisted : Unlisted q s.idle_task

Distinct-anchors : (ts : List ℕ) → Distinct (anchors ts) → Distinct ts
Distinct-anchors [] d = tt
Distinct-anchors (t ∷ ts) d = ground (arith, has-anchors t ts, Distinct-anchors ts d.1)

pub Holds-Distinct : {m : Links} {q : Contents} → Holds m q → (k : Queue) → Distinct (q k)
Holds-Distinct {q} h k = Distinct-anchors (q k) (h.rings k).distinct.1

pub Unlisted-take : {m : Links} {q : Contents} → Holds m q → (t : ℕ) → Unlisted (take q t) t
Unlisted-take {q} h t k = has-erase_self t (q k) (Holds-Distinct h k)

pub take-Unlisted : (q : Contents) (t : ℕ) → Unlisted q t → take q t ≡ q
take-Unlisted q t u = fun_ext λ k. erase_absent t (q k) (u k)

In-same :
    (q q' : Contents) (u : ℕ) (st : State)
    → ((k : Queue) → has u (q' k) ≡ has u (q k))
    → In q st u
    → In q' st u
In-same q q' u st_run same i = tt
In-same q q' u st_free same i = same q_free ∙ i
In-same q q' u st_ready same i = same q_ready ∙ i
In-same q q' u st_blocked same i = same q_blocked ∙ i
In-same q q' u st_readblocked same i = same q_read_blocked ∙ i

-- A change of one task and of the queues that moves only that task.
pub retask :
    {s : Sched} {q : Contents} (m : Links) (q' : Contents) (t : ℕ) (v : Task)
    → Inv s q
    → Holds m q'
    → ((k : Queue) (u : ℕ) → u ≢ t → has u (q' k) ≡ has u (q k))
    → ((k : Queue) → has t (q' k) ≡ true → fits k v ≡ true)
    → (is_pos v.pid ≡ true → In q' v.current_state t)
    → (t ≡ s.idle_task → (v.pid ≡ pos 0) × Unlisted q' t)
    → Inv (record s { links = m; tasks = update_task s.tasks t v }) q'
retask {s} {q} m q' t v i h same tag list idle = record {
  holds = h;
  tagged = λ k u e. elim (Bool-cases (u == t)) [
    | inl p ↦ rw p (tag k (subst (λ x. has x (q' k) ≡ true) (==→eq u t p) e))
    | inr p ↦ rw p (i.tagged k u (sym (same k u (ground arith)) ∙ e))
  ];
  listed = λ u slot. elim (Bool-cases (u == t)) [
    | inl p ↦ rw p λ e. subst (In q' v.current_state) (sym (==→eq u t p)) (list e)
    | inr p ↦ rw p λ e.
        In-same q q' u (s.tasks u).current_state (λ k. same k u (ground arith)) (i.listed u slot e)
  ];
  idle_slot = i.idle_slot;
  idle_pid = ground (arith, idle, i.idle_pid);
  idle_unlisted = λ k. elim (Bool-cases (s.idle_task == t)) [
    | inl p ↦
        subst (λ x. has x (q' k) ≡ false) (sym (==→eq s.idle_task t p))
          ((idle (sym (==→eq s.idle_task t p))).1 k)
    | inr p ↦ same k s.idle_task (ground arith) ∙ i.idle_unlisted k
  ];
}

module _ {s : Sched} {q : Contents} (i : Inv s q) (t : ℕ) where
  -- What `unlink` leaves of the queues of a process.
  pub unlink-Holds :
      is_pos (s.tasks t).pid ≡ true
      → IsSlot t
      → (is_run (s.tasks t).current_state ≡ true → Unlisted q t)
      → Holds (unlink s t).links (take q t)
  unfolding unlink
  unlink-Holds p slot run = rw p (go (s.tasks t).current_state (i.listed t slot p) run)
    where
      go :
          (st : State)
          → In q st t
          → (is_run st ≡ true → Unlisted q t)
          → Holds
              (if true && not (is_run st)
                then set_links s (list_del s.links (list_of t))
                else s).links
              (take q t)
      go st_run l r = rw (take-Unlisted q t (r refl)) i.holds
      go st_free l r = list_del-take i.holds t q_free l
      go st_ready l r = list_del-take i.holds t q_ready l
      go st_blocked l r = list_del-take i.holds t q_blocked l
      go st_readblocked l r = list_del-take i.holds t q_read_blocked l
