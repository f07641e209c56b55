-- ===== src/Exit/Leaves.antt =====
-- A process leaves: its waiters, its descriptor, and the next task.
use so2_joan_erik.Common.{
  ℕ, ◌≡◌, ◌≢◌, refl, Bool, true, false, List, ◌++◌, arith, has, erase, sym, ap, subst, ◌∙◌, ==_refl,
  if◌then◌else◌, some, negsuc, is_pos, is_neg, ◌&&◌,
}
use so2_joan_erik.Links.{list_add_tail}
use so2_joan_erik.Links.Ring.{Ring-frame, SameAt, head_or, list_add_tail_same}
use so2_joan_erik.Task.{st_run, st_free, is_run, IsSlot, list_of, freequeue}
use so2_joan_erik.Sched.{Sched, set_links, update_task, sched_next_rr, update_process_state_rr}
use so2_joan_erik.Sched.Queues.{q_free, q_ready, q_blocked, Contents, take, enqueue}
use so2_joan_erik.Sched.Invariant.{Inv}
use so2_joan_erik.Sched.Moves.{update_free-eq, update_free-Inv}
use so2_joan_erik.Sched.Spared.{IsElsewhere, ring_of-elsewhere, sched_next_rr-spared}
use so2_joan_erik.Sched.RoundRobin.{Runs, Scheduled, sched_next_rr-Scheduled}
use so2_joan_erik.Sched.Cycle.{sched_next_rr_same}
use so2_joan_erik.Threads.Family.{Children, Children-elsewhere, ring-IsElsewhere}
use so2_joan_erik.Exit.{leave}
use so2_joan_erik.Exit.Families.{at_family}
use so2_joan_erik.Exit.Children.{for_each-give_all}
use so2_joan_erik.Exit.Waiters.{Woken, wake_all, wake_all-Woken, woken_all, for_each-wake_all}
use so2_joan_erik.Exit.Orphans.{
  Leaving, kids_after, forgotten, orphaned, ct-not_idle, forgotten_pid, ct-family,
  forgotten_current, orphaned-family, forgotten_pare, orphaned-Sleepers, forgotten_idle,
  orphans-Adoptable, orphaned-Given,
}

-- The queues before the scheduler is called: the waiters are ready, the descriptor is free.
abbrev pub queues_after : Sched → Contents → List ℕ → Contents
queues_after s q ws = enqueue (woken_all ws q) q_free s.current

pub record Left (s s' : Sched) (q : Contents) (live : ℕ → Bool) (kids : ℕ → List ℕ) (ws : List ℕ)
    : Type 0 where
  pub inv : Inv s' (take (queues_after s q ws) (head_or s.idle_task (q q_ready ++ ws)))
  -- The oldest ready process runs, or a waiter if none was ready, or the idle task.
  pub next : s'.current ≡ head_or s.idle_task (q q_ready ++ ws)
  pub running : (s'.tasks s'.current).current_state ≡ st_run
  pub gone : (s'.tasks s.current).pid ≡ negsuc 0
  pub family : (p : ℕ) → live p ≡ true → p ≢ s.current → Children s'.links p (kids_after s kids p)
  pub pare :
      (u : ℕ)
      → u ≢ s.current
      → (s'.tasks u).pare ≡ (if has u (kids s.current) then s.idle_task else (s.tasks u).pare)

-- The states on the way: the waiters woken, the descriptor free.
abbrev awakened : Sched → (ℕ → List ℕ) → List ℕ → Sched
awakened s kids ws = wake_all ws (orphaned s kids)

abbrev released : Sched → (ℕ → List ℕ) → List ℕ → Sched
released s kids ws = update_process_state_rr (awakened s kids ws) s.current freequeue

module _ {s : Sched} {q : Contents} {live : ℕ → Bool} {kids : ℕ → List ℕ} {parent : ℕ} {ws : List ℕ}
    (g : Leaving s q live kids parent ws) where
  awakened-Woken : Woken (orphaned s kids) (awakened s kids ws) q ws
  awakened-Woken = wake_all-Woken ws (orphaned s kids) q s.current (orphaned-Sleepers g)

  awakened_pid : (u : ℕ) → ((awakened s kids ws).tasks u).pid ≡ ((forgotten s).tasks u).pid
  awakened_pid u = awakened-Woken.pid u ∙ (orphaned-Given g).pid u

  awakened_current : (awakened s kids ws).current ≡ s.current
  awakened_current = awakened-Woken.current ∙ (orphaned-Given g).current ∙ (forgotten_current g)

  awakened_idle : (awakened s kids ws).idle_task ≡ s.idle_task
  awakened_idle = awakened-Woken.idle ∙ (orphaned-Given g).idle ∙ (forgotten_idle g)

  not_waiting : has s.current ws ≡ false
  not_waiting = ground (arith, g.sleeps s.current, g.unlisted q_blocked)

  neg : is_neg ((awakened s kids ws).tasks s.current).pid ≡ true
  neg = rw (awakened_pid s.current, (forgotten_pid g)) refl

  released-eq :
      (released s kids ws)
      ≡ set_links
          (record (awakened s kids ws) {
            tasks =
                update_task
                  (awakened s kids ws).tasks
                  s.current
                  (record ((awakened s kids ws).tasks s.current) { current_state = st_free });
          })
          (list_add_tail (awakened s kids ws).links (list_of s.current) freequeue)
  released-eq = update_free-eq (awakened s kids ws) s.current freequeue neg

  released-Inv : Inv (released s kids ws) (queues_after s q ws)
  released-Inv =
      update_free-Inv awakened-Woken.inv s.current g.slot freequeue neg
        (awakened-Woken.unlisted s.current not_waiting g.unlisted)

  released_same :
      (a : ℕ) → IsElsewhere a → SameAt (awakened s kids ws).links (released s kids ws).links a
  released_same a e = rw released-eq (
      list_add_tail_same (awakened-Woken.inv.holds.rings q_free) (list_of s.current) a
        (ground (arith, e, g.slot)) (ring_of-elsewhere awakened-Woken.inv.holds q_free a e))

  released_current : (released s kids ws).current ≡ s.current
  released_current = ap (λ (x : Sched). x.current) released-eq ∙ awakened_current

  released_idle : (released s kids ws).idle_task ≡ s.idle_task
  released_idle = ap (λ (x : Sched). x.idle_task) released-eq ∙ awakened_idle

  released_pid : (u : ℕ) → ((released s kids ws).tasks u).pid ≡ ((awakened s kids ws).tasks u).pid
  released_pid u =
      rw released-eq
        (ground (arith, ap (λ x. ((awakened s kids ws).tasks x).pid) {x = u} {y = s.current}))

  released_pare :
      (u : ℕ) → ((released s kids ws).tasks u).pare ≡ ((awakened s kids ws).tasks u).pare
  released_pare u =
      rw released-eq
        (ground (arith, ap (λ x. ((awakened s kids ws).tasks x).pare) {x = u} {y = s.current}))

  released_gone : ((released s kids ws).tasks (released s kids ws).current).pid ≡ negsuc 0
  released_gone =
      ap (λ x. ((released s kids ws).tasks x).pid) released_current
      ∙ released_pid s.current
      ∙ awakened_pid s.current
      ∙ (forgotten_pid g)

  released_free : ((released s kids ws).tasks (released s kids ws).current).current_state ≡ st_free
  released_free =
      ap (λ x. ((released s kids ws).tasks x).current_state) released_current
      ∙ rw (released-eq, ==_refl s.current) refl

  released-Runs : Runs (released s kids ws) (queues_after s q ws)
  released-Runs = record {
    slot = subst IsSlot (sym released_current) g.slot;
    unlisted = λ h. absurd (ground (arith, h, released_free));
    live = λ h. absurd (ground (arith, h, released_free));
    idle = λ h. absurd (ground (arith, h, released_gone));
    unique = λ t h e. absurd (ground (arith, released-Inv.tagged q_ready t h, released_gone, e));
  }

  next-Scheduled :
      Scheduled (released s kids ws) (sched_next_rr (released s kids ws)) (queues_after s q ws)
  next-Scheduled = sched_next_rr-Scheduled released-Inv released-Runs

  next_chosen :
      head_or (released s kids ws).idle_task (queues_after s q ws q_ready)
      ≡ head_or s.idle_task (q q_ready ++ ws)
  next_chosen = rw released_idle (ap (head_or s.idle_task) awakened-Woken.ready)

  next-Inv :
      Inv
        (sched_next_rr (released s kids ws))
        (take (queues_after s q ws) (head_or s.idle_task (q q_ready ++ ws)))
  next-Inv =
      subst (λ t. Inv (sched_next_rr (released s kids ws)) (take (queues_after s q ws) t))
        next_chosen
        (subst
          (λ st. Inv (sched_next_rr (released s kids ws)) (
            take
              (if is_run st && is_pos ((released s kids ws).tasks (released s kids ws).current).pid
                then enqueue (queues_after s q ws) q_ready (released s kids ws).current
                else queues_after s q ws)
              (head_or (released s kids ws).idle_task (queues_after s q ws q_ready))))
          released_free next-Scheduled.inv)

  next-family :
      (p : ℕ)
      → live p ≡ true
      → p ≢ s.current
      → Children (sched_next_rr (released s kids ws)).links p (kids_after s kids p)
  next-family p l ne =
      let c : Children (orphaned s kids).links p (kids_after s kids p) =
        (orphaned-family g) p l ne in
      Children-elsewhere
        (record {
          ring = Ring-frame (released s kids ws).links c.ring λ a h.
              let e : IsElsewhere a = ring-IsElsewhere c a h in
              let x = awakened-Woken.same a e (ground (arith, at_family a c h)) in
              let y = released_same a e in (y.0 ∙ x.0, y.1 ∙ x.1);
          slots = c.slots;
          parent = c.parent;
        })
        (sched_next_rr (released s kids ws)).links (sched_next_rr-spared released-Inv released-Runs)

  next_pare :
      (u : ℕ)
      → u ≢ s.current
      → ((sched_next_rr (released s kids ws)).tasks u).pare
        ≡ (if has u (kids s.current) then s.idle_task else (s.tasks u).pare)
  next_pare u ne =
      (sched_next_rr_same (released s kids ws) u).2
      ∙ released_pare u
      ∙ awakened-Woken.pare u
      ∙ (orphaned-Given g).pare u
      ∙ rw ((forgotten_idle g), (forgotten_pare g) u ne) refl

  released-Left : Left s (sched_next_rr (released s kids ws)) q live kids ws
  released-Left = record {
    inv = next-Inv;
    next = next-Scheduled.next.current ∙ next_chosen;
    running =
        ap (λ t. ((sched_next_rr (released s kids ws)).tasks t).current_state)
          next-Scheduled.next.current
        ∙ next-Scheduled.next.state;
    gone =
        (sched_next_rr_same (released s kids ws) s.current).0
        ∙ released_pid s.current
        ∙ awakened_pid s.current
        ∙ (forgotten_pid g);
    family = next-family;
    pare = next_pare;
  }

  leave-some : leave s.current s ≡ some (sched_next_rr (released s kids ws))
  unfolding leave
  leave-some =
      rw
        (for_each-give_all s.current (kids s.current) (erase s.current (kids s.idle_task))
          (forgotten s) (ct-family g) (orphans-Adoptable g)
          (λ e. (ct-not_idle g) (e ∙ (forgotten_idle g))))
        (rw (for_each-wake_all s.current ws (orphaned s kids) q (orphaned-Sleepers g)) refl)

  -- The end of sys_exit ends, with the scheduler in such a state.
  pub leave-Left : (s' : Sched) × (leave s.current s ≡ some s') × Left s s' q live kids ws
  leave-Left = (sched_next_rr (released s kids ws), leave-some, released-Left)
