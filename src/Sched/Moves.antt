-- ===== src/Sched/Moves.antt =====
-- update_process_state_rr moves a task between the queues and keeps the invariant.
use so2_joan_erik.Common.{
  ℕ, ◌≡◌, refl, ◌≢◌, true, false, List, [], ◌∷◌, ◌++◌, arith, has, has-append, has-erase_ne, sym,
  subst, ◌∙◌, pos, is_neg, is_pos,
}
use so2_joan_erik.Links.{null, list_add_tail}
use so2_joan_erik.Task.{State, st_run, st_free, is_run, IsSlot, list_of, freequeue}
use so2_joan_erik.Sched.{
  free_task, place, Sched, update_task, set_state, set_links, unlink, update_process_state_rr,
}
use so2_joan_erik.Sched.Queues.{
  Queue, q_free, q_ready, q_blocked, q_read_blocked, head_of, Contents, eqb_queue→eq, take, enqueue,
  Unlisted, list_add_tail-enqueue, has-enqueue,
}
use so2_joan_erik.Sched.Invariant.{state_of, In, Inv, Unlisted-take, retask, unlink-Holds}

-- The effect of update_process_state_rr on a process, written out.
abbrev pub moved : Sched → ℕ → ℕ → State → Sched
moved s t dest st = record s {
  links = list_add_tail (unlink s t).links (list_of t) dest;
  tasks = update_task s.tasks t (record (s.tasks t) { current_state = st });
}

abbrev pub running : Sched → ℕ → Sched
running s t = record s {
  links = (unlink s t).links;
  tasks = update_task s.tasks t (record (s.tasks t) { current_state = st_run });
}

pub update_process-eq :
    (s : Sched) (t : ℕ) (k : Queue)
    → is_pos (s.tasks t).pid ≡ true
    → update_process_state_rr s t (head_of k) ≡ moved s t (head_of k) (state_of k)
unfolding update_process_state_rr free_task unlink place
update_process-eq s t k p = ground arith

pub update_process_run-eq :
    (s : Sched) (t : ℕ)
    → is_neg (s.tasks t).pid ≡ false
    → update_process_state_rr s t null ≡ running s t
unfolding update_process_state_rr free_task unlink place
update_process_run-eq s t p = ground arith

pub update_idle-eq :
    (s : Sched) (t : ℕ) (k : Queue)
    → (s.tasks t).pid ≡ pos 0
    → update_process_state_rr s t (head_of k) ≡ set_state s t (state_of k)
unfolding update_process_state_rr free_task unlink place
update_idle-eq s t k p = ground arith

pub update_idle_run-eq :
    (s : Sched) (t : ℕ)
    → (s.tasks t).pid ≡ pos 0
    → update_process_state_rr s t null ≡ set_state s t st_run
unfolding update_process_state_rr free_task unlink place
update_idle_run-eq s t p = ground arith

pub update_free-eq :
    (s : Sched) (t dest : ℕ)
    → is_neg (s.tasks t).pid ≡ true
    → update_process_state_rr s t dest
      ≡ set_links (set_state s t st_free) (list_add_tail s.links (list_of t) freequeue)
unfolding update_process_state_rr free_task unlink place
update_free-eq s t dest p = ground arith

has-snoc : (t : ℕ) (ts : List ℕ) → has t (ts ++ t ∷ []) ≡ true
has-snoc t ts = ground (arith, has-append t ts (t ∷ []))

In-enqueue : (q : Contents) (k : Queue) (t : ℕ) → In (enqueue q k t) (state_of k) t
In-enqueue q q_free t = has-snoc t (q q_free)
In-enqueue q q_ready t = has-snoc t (q q_ready)
In-enqueue q q_blocked t = has-snoc t (q q_blocked)
In-enqueue q q_read_blocked t = has-snoc t (q q_read_blocked)

pub not_idle :
    {s : Sched} {q : Contents} (t : ℕ) → Inv s q → is_pos (s.tasks t).pid ≡ true → t ≢ s.idle_task
not_idle {s} t i p e = ground (arith, subst (λ x. (s.tasks x).pid ≡ pos 0) (sym e) i.idle_pid)

module _ {s : Sched} {q : Contents} (i : Inv s q) (t : ℕ) (slot : IsSlot t) where
  -- On queues as `Inv` says, update_process_state_rr moves a process to the end of the queue `k`, from
  -- wherever it is, and `Inv` holds again: the others keep their order. A process that runs must be
  -- in no queue.
  pub update_process-Inv :
      (k : Queue)
      → is_pos (s.tasks t).pid ≡ true
      → (is_run (s.tasks t).current_state ≡ true → Unlisted q t)
      → Inv (update_process_state_rr s t (head_of k)) (enqueue (take q t) k t)
  update_process-Inv k p run =
      let h = unlink-Holds i t p slot run in
      let out = Unlisted-take i.holds t in
      rw (update_process-eq s t k p) (
        retask _ _ t _ i (list_add_tail-enqueue h t k slot out)
          (λ j u ne. has-enqueue (take q t) j k u t ∙ ground (arith, has-erase_ne u t (q j) ne))
          (λ j e. ground (arith, has-enqueue (take q t) j k t t, out j, eqb_queue→eq j k))
          (λ _. In-enqueue (take q t) k t) (λ e. absurd (not_idle t i p e)))

  -- A process that is to run leaves its queue.
  pub update_process_run-Inv :
      is_pos (s.tasks t).pid ≡ true
      → (is_run (s.tasks t).current_state ≡ true → Unlisted q t)
      → Inv (update_process_state_rr s t null) (take q t)
  update_process_run-Inv p run =
      let h = unlink-Holds i t p slot run in
      let out = Unlisted-take i.holds t in
      rw (update_process_run-eq s t (ground arith)) (
        retask _ _ t _ i h (λ j u ne. has-erase_ne u t (q j) ne) (λ j e. cc (out j, e)) (λ _. tt)
          (λ e. absurd (not_idle t i p e)))

  -- The idle task changes its state alone.
  pub update_idle-Inv :
      (k : Queue) → t ≡ s.idle_task → Inv (update_process_state_rr s t (head_of k)) q
  update_idle-Inv k e =
      let pid : (s.tasks t).pid ≡ pos 0 = subst (λ x. (s.tasks x).pid ≡ pos 0) (sym e) i.idle_pid in
      let out : Unlisted q t = subst (Unlisted q) (sym e) i.idle_unlisted in
      rw (update_idle-eq s t k pid) (
        retask _ _ t _ i i.holds (λ j u ne. refl) (λ j h. cc (out j, h)) (λ h. cc (pid, h))
          (λ _. (pid, out)))

  pub update_idle_run-Inv : t ≡ s.idle_task → Inv (update_process_state_rr s t null) q
  update_idle_run-Inv e =
      let pid : (s.tasks t).pid ≡ pos 0 = subst (λ x. (s.tasks x).pid ≡ pos 0) (sym e) i.idle_pid in
      let out : Unlisted q t = subst (Unlisted q) (sym e) i.idle_unlisted in
      rw (update_idle_run-eq s t pid) (
        retask _ _ t _ i i.holds (λ j u ne. refl) (λ j h. cc (out j, h)) (λ _. tt)
          (λ _. (pid, out)))

  -- A task with a negative PID goes to the end of the free queue, whatever `dest` is.
  pub update_free-Inv :
      (dest : ℕ)
      → is_neg (s.tasks t).pid ≡ true
      → Unlisted q t
      → Inv (update_process_state_rr s t dest) (enqueue q q_free t)
  update_free-Inv dest p out = rw (update_free-eq s t dest p) (
      retask _ _ t _ i (list_add_tail-enqueue i.holds t q_free slot out)
        (λ j u ne. has-enqueue q j q_free u t ∙ ground arith)
        (λ j e. ground (arith, has-enqueue q j q_free t t, out j, eqb_queue→eq j q_free))
        (λ h. In-enqueue q q_free t)
        (λ e. absurd (ground (arith, subst (λ x. (s.tasks x).pid ≡ pos 0) (sym e) i.idle_pid))))
