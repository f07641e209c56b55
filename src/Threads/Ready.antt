-- ===== src/Threads/Ready.antt =====
-- The ready queue and the family of a new task, on a state that satisfies the invariant of the
-- scheduler.
use so2_joan_erik.Common.{
  ℕ, ◌≡◌, refl, ◌≢◌, true, false, List, [], ◌∷◌, ◌++◌, arith, has, has-erase-false, Bool-cases, inl,
  inr, ◌==◌, ==→eq, sym, subst, ◌∙◌, ap, ==_refl, ne→==, pos, ◌+ℤ◌, is_pos,
}
use so2_joan_erik.Links.{list_first, list_empty}
use so2_joan_erik.Links.Ring.{head_or, is_nil, list_empty-nil, list_first-head_or}
use so2_joan_erik.Task.{
  Task, IsSlot, default_quantum_ticks, st_run, st_ready, freequeue, list_of,
  list_head_to_task_struct,
}
use so2_joan_erik.Sched.{Sched, set_quantum}
use so2_joan_erik.Sched.Queues.{
  q_free, q_ready, Contents, take, anchors, enqueue, has-enqueue, Unlisted,
}
use so2_joan_erik.Sched.Invariant.{Inv, take-Unlisted}
use so2_joan_erik.Sched.Alike.{Alike-Inv, update_task-Alike}
use so2_joan_erik.Sched.Moves.{update_process-eq, update_process-Inv}
use so2_joan_erik.Sched.RoundRobin.{Runs, list_head_to_task_struct-list_of}
use so2_joan_erik.Sched.Spared.{update_process-spared}
use so2_joan_erik.Kernel.{Kernel}
use so2_joan_erik.Threads.{make_ready}
use so2_joan_erik.Threads.Family.{Children, Children-elsewhere}
use so2_joan_erik.Threads.Placed.{
  family_links, family_links-Children, family_links_childless, placed-Inv, new-IsSlot, new-Unlisted,
}

-- The new task is ready, with the default quantum, and as it was in all else.
pub make_ready_task :
    (b : Sched) (t : ℕ)
    → is_pos (b.tasks t).pid ≡ true
    → (make_ready t b).tasks t ≡ (
        let v = b.tasks t in
        record v { quantum = pos default_quantum_ticks; current_state = st_ready })
unfolding make_ready set_quantum
make_ready_task b t p =
    rw
      (update_process-eq (set_quantum b t (pos default_quantum_ticks)) t q_ready (rw (==_refl t) p))
      (rw (==_refl t) refl)

module _ {b : Sched} {q : Contents} (i : Inv b q) (t : ℕ) (slot : IsSlot t) (out : Unlisted q t)
    (p : is_pos (b.tasks t).pid ≡ true) where
  timed : Sched
  timed = set_quantum b t (pos default_quantum_ticks)

  timed-Inv : Inv timed q
  unfolding timed set_quantum
  timed-Inv = Alike-Inv (update_task-Alike b t _ refl refl) refl i

  make_ready-Inv : Inv (make_ready t b) (enqueue q q_ready t)
  unfolding make_ready timed set_quantum
  make_ready-Inv =
      subst (λ x. Inv (make_ready t b) (enqueue x q_ready t)) (take-Unlisted q t out)
        (update_process-Inv timed-Inv t slot q_ready (rw (==_refl t) p) (λ _. out))

  -- Nothing else changes.
  make_ready_other : (u : ℕ) → u ≢ t → (make_ready t b).tasks u ≡ b.tasks u
  unfolding make_ready set_quantum
  make_ready_other u ne =
      rw
        (update_process-eq (set_quantum b t (pos default_quantum_ticks)) t q_ready
          (rw (==_refl t) p))
        (rw (ne→== ne) refl)

  make_ready_current : (make_ready t b).current ≡ b.current
  unfolding make_ready set_quantum
  make_ready_current =
      rw
        (update_process-eq (set_quantum b t (pos default_quantum_ticks)) t q_ready
          (rw (==_refl t) p))
        refl

  make_ready_idle : (make_ready t b).idle_task ≡ b.idle_task
  unfolding make_ready set_quantum
  make_ready_idle =
      rw
        (update_process-eq (set_quantum b t (pos default_quantum_ticks)) t q_ready
          (rw (==_refl t) p))
        refl

  make_ready-Children :
      (u : ℕ) (cs : List ℕ) → Children b.links u cs → Children (make_ready t b).links u cs
  unfolding make_ready timed set_quantum
  make_ready-Children u cs c =
      Children-elsewhere c _
        λ a e. update_process-spared timed-Inv t slot (rw (==_refl t) p) (λ _. out) a e q_ready

-- The running process `s.current`, whose children are `cs`, may create the task `t`: it has the first
-- free descriptor, and the next PID is a positive number that the process does not have.
pub record Creator (k : Kernel) (q : Contents) (t : ℕ) (ts cs : List ℕ) : Type 0 where
  pub inv : Inv k.sched q
  pub runs : Runs k.sched q
  pub running : (k.sched.tasks k.sched.current).current_state ≡ st_run
  pub free : q q_free ≡ t ∷ ts
  pub family : Children k.sched.links k.sched.current cs
  pub fresh : has t cs ≡ false
  pub next_pid : is_pos k.pid_global ≡ true
  pub other_pid : k.pid_global ≢ (k.sched.tasks k.sched.current).pid

-- What there is after the creation: the task `t` is the last of the ready queue and the youngest child,
-- with no children; the others are as they were, and the same process runs.
pub record Created (k k' : Kernel) (q : Contents) (t : ℕ) (cs : List ℕ) : Type 0 where
  pub inv : Inv k'.sched (enqueue (take q t) q_ready t)
  pub runs : Runs k'.sched (enqueue (take q t) q_ready t)
  pub current : k'.sched.current ≡ k.sched.current
  pub children : Children k'.sched.links k.sched.current (cs ++ t ∷ [])
  pub childless : Children k'.sched.links t []
  pub pid : (k'.sched.tasks t).pid ≡ k.pid_global
  pub parent : (k'.sched.tasks t).pare ≡ k.sched.current
  pub pending : (k'.sched.tasks t).pending_unblocks ≡ pos 0
  pub quantum : (k'.sched.tasks t).quantum ≡ pos default_quantum_ticks
  pub counter : k'.pid_global ≡ k.pid_global +ℤ pos 1
  pub others : (u : ℕ) → u ≢ t → k'.sched.tasks u ≡ k.sched.tasks u

module _ {k : Kernel} {q : Contents} {t : ℕ} {ts cs : List ℕ} (c : Creator k q t ts cs) where
  open c use {inv, runs, running, free, family, fresh, next_pid, other_pid}

  pub is_listed : has t (q q_free) ≡ true
  is_listed = rw free (rw (==_refl t) refl)

  pub not_current : t ≢ k.sched.current
  not_current e =
      cc (subst (λ x. has x (q q_free) ≡ true) e is_listed, runs.unlisted (rw running refl) q_free)

  pub slot : IsSlot t
  slot = new-IsSlot inv is_listed family fresh not_current

  pub found_free : list_head_to_task_struct (list_first k.sched.links freequeue) ≡ t
  found_free =
      subst (λ x. list_head_to_task_struct x ≡ t)
        (sym (
          list_first-head_or (inv.holds.rings q_free)
          ∙ ap (λ l. head_or freequeue (anchors l)) free))
        (list_head_to_task_struct-list_of t slot)

  pub new_out : Unlisted (take q t) t
  new_out = new-Unlisted inv is_listed family fresh not_current

  -- The process that runs is not in the new queues, and its PID stays its own.
  current-Unlisted : Unlisted (enqueue (take q t) q_ready t) k.sched.current
  current-Unlisted j = ground (
    arith,
    not_current,
    has-enqueue (take q t) j q_ready k.sched.current t,
    has-erase-false k.sched.current t (q j),
    runs.unlisted (rw running refl) j,
  )

  kept-Runs :
      (s' : Sched)
      → s'.current ≡ k.sched.current
      → s'.idle_task ≡ k.sched.idle_task
      → ((u : ℕ) → u ≢ t → (s'.tasks u).pid ≡ (k.sched.tasks u).pid)
      → (s'.tasks t).pid ≡ k.pid_global
      → Runs s' (enqueue (take q t) q_ready t)
  kept-Runs s' current idle others pid = record {
    slot = subst IsSlot (sym current) runs.slot;
    unlisted = λ _. subst (Unlisted (enqueue (take q t) q_ready t)) (sym current) current-Unlisted;
    live = λ _. rw same (runs.live (rw running refl));
    idle = λ z. current ∙ runs.idle (sym same ∙ z) ∙ sym idle;
    unique = λ u h e. elim (Bool-cases (u == t)) [
      | inl x ↦
          absurd (other_pid (sym pid ∙ ap (λ v. (s'.tasks v).pid) (sym (==→eq u t x)) ∙ e ∙ same))
      | inr x ↦
          runs.unique u
            (ground (
              arith,
              h,
              x,
              has-erase-false u t (q q_ready),
              has-enqueue (take q t) q_ready q_ready u t,
            ))
            (sym (others u (ground (arith, x))) ∙ e ∙ same)
          ∙ sym current
    ];
  }
    where
      same : (s'.tasks s'.current).pid ≡ (k.sched.tasks k.sched.current).pid
      same = ap (λ v. (s'.tasks v).pid) current ∙ others k.sched.current (λ e. not_current (sym e))

  -- Any state before make_ready that has the links and the fields of the new task.
  pub make_ready-Created :
      (k' : Kernel)
      → k'.sched.links ≡ family_links k.sched t
      → k'.sched.idle_task ≡ k.sched.idle_task
      → k'.sched.current ≡ k.sched.current
      → k'.pid_global ≡ k.pid_global +ℤ pos 1
      → (k'.sched.tasks t).pid ≡ k.pid_global
      → (k'.sched.tasks t).pare ≡ k.sched.current
      → (k'.sched.tasks t).pending_unblocks ≡ pos 0
      → (k'.sched.tasks t).current_state ≡ st_run
      → ((u : ℕ) → u ≢ t → k'.sched.tasks u ≡ k.sched.tasks u)
      → Created k (record k' { sched = make_ready t k'.sched }) q t cs
  make_ready-Created k' links idle current counter pid pare pending state others = record {
    inv = make_ready-Inv i t slot out p;
    runs =
        kept-Runs _ (make_ready_current i t slot out p ∙ current)
          (make_ready_idle i t slot out p ∙ idle)
          (λ u ne. ap (λ (v : Task). v.pid) (make_ready_other i t slot out p u ne ∙ others u ne))
          (rw (make_ready_task k'.sched t p) pid);
    current = make_ready_current i t slot out p ∙ current;
    children = make_ready-Children i t slot out p _ _ (
        subst (λ l. Children l k.sched.current (cs ++ t ∷ [])) (sym links)
          (family_links-Children inv is_listed family fresh not_current));
    childless = make_ready-Children i t slot out p _ _ (
        subst (λ l. Children l t []) (sym links)
          (family_links_childless inv is_listed family fresh not_current));
    pid = rw (make_ready_task k'.sched t p) pid;
    parent = rw (make_ready_task k'.sched t p) pare;
    pending = rw (make_ready_task k'.sched t p) pending;
    quantum = rw (make_ready_task k'.sched t p) refl;
    counter = counter;
    others = λ u ne. make_ready_other i t slot out p u ne ∙ others u ne;
  }
    where
      out : Unlisted (take q t) t
      out = new-Unlisted inv is_listed family fresh not_current

      p : is_pos (k'.sched.tasks t).pid ≡ true
      p = rw pid next_pid

      i : Inv k'.sched (take q t)
      i = placed-Inv inv is_listed family fresh not_current k'.sched links idle state others

  pub some_free : list_empty k.sched.links freequeue ≡ false
  some_free = list_empty-nil (inv.holds.rings q_free) ∙ ap (λ l. is_nil (anchors l)) free

  pub first_free : list_first k.sched.links freequeue ≡ list_of t
  first_free =
      list_first-head_or (inv.holds.rings q_free) ∙ ap (λ l. head_or freequeue (anchors l)) free
