-- ===== src/Sched/Alike.antt =====
-- What the invariant reads of the state: two states that are alike in it have the same queues.
use so2_joan_erik.Common.{
  ℕ, ◌≡◌, refl, ◌∙◌, ap, sym, subst, Bool-cases, inl, inr, ◌==◌, ==→eq, ◌≢◌, arith, true, has,
  is_pos,
}
use so2_joan_erik.Task.{Task, IsSlot}
use so2_joan_erik.Sched.{Sched, update_task}
use so2_joan_erik.Sched.Queues.{Queue, Contents, Holds, Unlisted}
use so2_joan_erik.Sched.Invariant.{Inv, In, fits, retask}

pub record Alike (s s' : Sched) : Type 0 where
  pub links : s'.links ≡ s.links
  pub pid : (u : ℕ) → (s'.tasks u).pid ≡ (s.tasks u).pid
  pub state : (u : ℕ) → (s'.tasks u).current_state ≡ (s.tasks u).current_state

pub Alike-trans : {s s' s'' : Sched} → Alike s s' → Alike s' s'' → Alike s s''
Alike-trans a b = record {
  links = b.links ∙ a.links;
  pid = λ u. b.pid u ∙ a.pid u;
  state = λ u. b.state u ∙ a.state u;
}

pub Alike-Inv :
    {s s' : Sched} {q : Contents} → Alike s s' → s'.idle_task ≡ s.idle_task → Inv s q → Inv s' q
Alike-Inv {s} {s'} {q} a idle i = record {
  holds = subst (λ l. Holds l q) (sym a.links) i.holds;
  tagged = λ k t h. rw (a.state t, a.pid t) (i.tagged k t h);
  listed =
      λ t slot p. subst (λ st. In q st t) (sym (a.state t)) (i.listed t slot (rw⁻¹ (a.pid t) p));
  idle_slot = subst IsSlot (sym idle) i.idle_slot;
  idle_pid = ap (λ x. (s'.tasks x).pid) idle ∙ a.pid s.idle_task ∙ i.idle_pid;
  idle_unlisted = subst (Unlisted q) (sym idle) i.idle_unlisted;
}

-- A store to the fields of a task that the invariant does not read.
pub update_task-Alike :
    (s : Sched) (t : ℕ) (v : Task)
    → v.pid ≡ (s.tasks t).pid
    → v.current_state ≡ (s.tasks t).current_state
    → Alike s (record s { tasks = update_task s.tasks t v })
update_task-Alike s t v p st = record {
  links = refl;
  pid = λ u. elim (Bool-cases (u == t)) [
    | inl e ↦ let q : u ≡ t = ==→eq u t e in rw (e, q) p
    | inr e ↦ rw e refl
  ];
  state = λ u. elim (Bool-cases (u == t)) [
    | inl e ↦ let q : u ≡ t = ==→eq u t e in rw (e, q) st
    | inr e ↦ rw e refl
  ];
}

-- A state in which only the links and the task `t`, which is not the idle one, differ.
pub replace-Inv :
    {s : Sched} {q : Contents} (b : Sched) (q' : Contents) (t : ℕ)
    → Inv s q
    → Holds b.links q'
    → ((k : Queue) (u : ℕ) → u ≢ t → has u (q' k) ≡ has u (q k))
    → ((k : Queue) → has t (q' k) ≡ true → fits k (b.tasks t) ≡ true)
    → (is_pos (b.tasks t).pid ≡ true → In q' (b.tasks t).current_state t)
    → t ≢ s.idle_task
    → b.idle_task ≡ s.idle_task
    → ((u : ℕ) → u ≢ t → b.tasks u ≡ s.tasks u)
    → Inv b q'
replace-Inv {s} b q' t i h same tag list not_idle idle others =
    Alike-Inv {s = record s { links = b.links; tasks = update_task s.tasks t (b.tasks t) }}
      (record {
        links = refl;
        pid = λ u. elim (Bool-cases (u == t)) [
          | inl e ↦ let p : u ≡ t = ==→eq u t e in rw (e, p) refl
          | inr e ↦ rw (e, others u (ground (arith, e))) refl
        ];
        state = λ u. elim (Bool-cases (u == t)) [
          | inl e ↦ let p : u ≡ t = ==→eq u t e in rw (e, p) refl
          | inr e ↦ rw (e, others u (ground (arith, e))) refl
        ];
      })
      idle (retask b.links q' t (b.tasks t) i h same tag list (λ e. absurd (not_idle e)))
