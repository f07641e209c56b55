-- ===== src/Exit/Waiters.antt =====
-- The tasks that wait for a task that leaves become ready.
use mathlib.Core.List.{append-nil, append_assoc}
use so2_joan_erik.Common.{
  has-erase-false, ℕ, zero, suc, ◌<◌, ◌≡◌, ◌≢◌, refl, true, false, length, List, [], ◌∷◌, ◌++◌,
  arith, has, Distinct, sym, ap, subst, ◌∙◌, inl, inr, ==_refl, ne→==, some, is_pos, has-erase_ne,
  erase_absent, Bool-cases,
}
use so2_joan_erik.Links.{Links, list_del}
use so2_joan_erik.Links.Ring.{Ring, SameAt, list_del_same, list_del-Ring, head_or}
use so2_joan_erik.Task.{IsSlot, is_run, wait_list_of, wait_anchor_of, readyqueue}
use so2_joan_erik.Task.Count.{length-slots}
use so2_joan_erik.Sched.{Sched, set_links, update_process_state_rr}
use so2_joan_erik.Sched.Queues.{Contents, q_ready, q_blocked, Unlisted, take, has-enqueue}
use so2_joan_erik.Sched.Invariant.{Inv}
use so2_joan_erik.Sched.Moves.{update_process-Inv}
use so2_joan_erik.Sched.Spared.{IsElsewhere, Inv-elsewhere, update_process-spared}
use so2_joan_erik.Sched.Unchanged.{SameButState, update_process_state_rr_same}
use so2_joan_erik.Semaphore.Signal.{woken}
use so2_joan_erik.Exit.{list_for_each_safe, for_each, wake_waiter}
use so2_joan_erik.Exit.Children.{Chain-next}
use so2_joan_erik.Exit.Waiting.{
  wait_anchors, WaitsFor, WaitsFor-same, IsOffWaits, list_head_to_task_struct-wait_anchor_of,
  Distinct-wait_anchors, off_ring,
}

-- Waiters of `t` that are blocked.
pub record Sleepers (s : Sched) (q : Contents) (t : ℕ) (ws : List ℕ) : Type 0 where
  pub inv : Inv s q
  pub waits : WaitsFor s.links t ws
  pub sleeps : (w : ℕ) → has w ws ≡ true → has w (q q_blocked) ≡ true

abbrev pub wake_all : List ℕ → Sched → Sched
wake_all [] s = s
wake_all (w ∷ ws) s = wake_all ws (wake_waiter (wait_anchor_of w) s)

abbrev pub woken_all : List ℕ → Contents → Contents
woken_all [] q = q
woken_all (w ∷ ws) q = woken_all ws (woken q w)

-- One round.
module _ (s : Sched) (q : Contents) (t w : ℕ) (ws : List ℕ) (z : Sleepers s q t (w ∷ ws)) where
  w-IsSlot : IsSlot w
  w-IsSlot = z.waits.slots w (ground arith)

  tag : is_pos (s.tasks w).pid ≡ true
  tag = ground (arith, z.inv.tagged q_blocked w (z.sleeps w (ground arith)))

  not_run : is_run (s.tasks w).current_state ≡ false
  not_run = ground (arith, z.inv.tagged q_blocked w (z.sleeps w (ground arith)))

  awake : Sched
  awake = update_process_state_rr s w readyqueue

  awake-Inv : Inv awake (woken q w)
  unfolding awake
  awake-Inv = update_process-Inv z.inv w w-IsSlot q_ready tag (λ r. cc (r, not_run))

  awake_same : (a : ℕ) → IsElsewhere a → SameAt s.links awake.links a
  unfolding awake
  awake_same a e = update_process-spared z.inv w w-IsSlot tag (λ r. cc (r, not_run)) a e q_ready

  awake-WaitsFor : WaitsFor awake.links t (w ∷ ws)
  awake-WaitsFor = WaitsFor-same z.waits awake.links awake_same

  gone : Links
  gone = list_del awake.links (wait_anchor_of w)

  gone_same : (a : ℕ) → IsOffWaits a → SameAt awake.links gone a
  unfolding gone
  gone_same a h =
      list_del_same awake-WaitsFor.ring (wait_anchor_of w) a (ground arith)
        (off_ring awake-WaitsFor a h)

  wake_waiter-eq : wake_waiter (wait_anchor_of w) s ≡ set_links awake gone
  unfolding awake gone wake_waiter
  wake_waiter-eq = rw (list_head_to_task_struct-wait_anchor_of w w-IsSlot) refl

  wake_same :
      (a : ℕ)
      → IsElsewhere a
      → IsOffWaits a
      → SameAt s.links (wake_waiter (wait_anchor_of w) s).links a
  wake_same a e h =
      rw wake_waiter-eq (let x = awake_same a e in let y = gone_same a h in (y.0 ∙ x.0, y.1 ∙ x.1))

  wake-SameButState : SameButState s (wake_waiter (wait_anchor_of w) s) w
  unfolding awake
  wake-SameButState = rw wake_waiter-eq (record {
    pid = u.pid;
    dir = u.dir;
    quantum = u.quantum;
    pare = u.pare;
    state = u.state;
    current = u.current;
    idle = u.idle;
    cr3 = u.cr3;
    esp0 = u.esp0;
    msr = u.msr;
  })
    where
      u : SameButState s (update_process_state_rr s w readyqueue) w
      u = update_process_state_rr_same s w readyqueue

  distinct : Distinct (w ∷ ws)
  distinct = Distinct-wait_anchors (w ∷ ws) z.waits.ring.distinct.1

  not_ready : has w (q q_ready) ≡ false
  not_ready = elim (Bool-cases (has w (q q_ready))) [
    | inl e ↦
        absurd (ground (arith, z.inv.holds.apart q_ready q_blocked w e (z.sleeps w (ground arith))))
    | inr e ↦ e
  ]

  wake_next : Sleepers (wake_waiter (wait_anchor_of w) s) (woken q w) t ws
  unfolding gone
  wake_next = rw wake_waiter-eq (record {
    inv = Inv-elsewhere gone awake-Inv λ a h. gone_same a (ground (arith, h));
    waits = record {
      ring =
          subst (Ring gone (wait_list_of t)) (rw (==_refl (wait_anchor_of w)) refl)
            (list_del-Ring awake-WaitsFor.ring (wait_anchor_of w) (ground arith));
      slots = λ u h. z.waits.slots u (ground arith);
      slot = z.waits.slot;
    };
    sleeps = λ u h.
        has-erase_ne u w (q q_blocked) (λ e. cc (subst (λ x. has x ws ≡ true) e h, distinct.0))
        ∙ z.sleeps u (ground arith);
  })

-- The state after all rounds.
pub record Woken (s s' : Sched) (q : Contents) (ws : List ℕ) : Type 0 where
  pub inv : Inv s' (woken_all ws q)
  pub current : s'.current ≡ s.current
  pub idle : s'.idle_task ≡ s.idle_task
  pub pid : (u : ℕ) → (s'.tasks u).pid ≡ (s.tasks u).pid
  pub pare : (u : ℕ) → (s'.tasks u).pare ≡ (s.tasks u).pare
  pub state : (u : ℕ) → has u ws ≡ false → (s'.tasks u).current_state ≡ (s.tasks u).current_state
  pub same : (a : ℕ) → IsElsewhere a → IsOffWaits a → SameAt s.links s'.links a
  -- They stand behind the tasks that were ready, in the order in which they have waited.
  pub ready : woken_all ws q q_ready ≡ q q_ready ++ ws
  pub unlisted : (u : ℕ) → has u ws ≡ false → Unlisted q u → Unlisted (woken_all ws q) u

pub wake_all-Woken :
    (ws : List ℕ) (s : Sched) (q : Contents) (t : ℕ)
    → Sleepers s q t ws
    → Woken s (wake_all ws s) q ws
wake_all-Woken [] s q t z = record {
  inv = z.inv;
  current = refl;
  idle = refl;
  pid = λ u. refl;
  pare = λ u. refl;
  state = λ u h. refl;
  same = λ a e h. (refl, refl);
  ready = sym (append-nil (q q_ready));
  unlisted = λ u h l. l;
}
wake_all-Woken (w ∷ ws) s q t z =
    let s1 : Sched = wake_waiter (wait_anchor_of w) s in
    let one : SameButState s s1 w = wake-SameButState s q t w ws z in
    let r : Woken s1 (wake_all ws s1) (woken q w) ws =
      wake_all-Woken ws s1 (woken q w) t (wake_next s q t w ws z) in
    record {
      inv = r.inv;
      current = r.current ∙ one.current;
      idle = r.idle ∙ one.idle;
      pid = λ u. r.pid u ∙ one.pid u;
      pare = λ u. r.pare u ∙ one.pare u;
      state = λ u h. r.state u (ground (arith, h)) ∙ one.state u (ground (arith, h));
      same = λ a e h.
          let x = wake_same s q t w ws z a e h in let y = r.same a e h in (y.0 ∙ x.0, y.1 ∙ x.1);
      ready =
          r.ready
          ∙ ap (λ l. l ++ w ∷ [] ++ ws) (erase_absent w (q q_ready) (not_ready s q t w ws z))
          ∙ append_assoc (q q_ready) (w ∷ []) ws;
      unlisted = λ u h l. r.unlisted u (ground (arith, h)) λ k.
          ground (arith, has-enqueue (take q w) k q_ready u w, l k, has-erase-false u w (q k), h);
    }

-- The rounds of the loop, from the first of `ws` on.
wake_loop :
    (f t : ℕ) (ws : List ℕ) (s : Sched) (q : Contents)
    → Sleepers s q t ws
    → length ws < f
    → list_for_each_safe f wake_waiter
        (wait_list_of t)
        (head_or (wait_list_of t) (wait_anchors ws))
        s
      ≡ some (wake_all ws s)
unfolding list_for_each_safe
wake_loop zero t ws s q z h = absurd (omega (arith, h))
wake_loop (suc f) t [] s q z h = rw (==_refl (wait_list_of t)) refl
wake_loop (suc f) t (w ∷ ws) s q z h =
    let other : wait_anchor_of w ≢ wait_list_of t =
      λ e. omega (arith, e, z.waits.slot, w-IsSlot s q t w ws z) in
    rw
      (
        ne→== other,
        Chain-next s.links.next (wait_anchor_of w) (wait_anchors ws) (wait_list_of t)
            z.waits.ring.forward.1,
      )
      (wake_loop f t ws (wake_waiter (wait_anchor_of w) s) (woken q w) (wake_next s q t w ws z)
        (omega (arith, h)))

-- The loop over the waiters ends, and has done to each in order what a round does.
pub for_each-wake_all :
    (t : ℕ) (ws : List ℕ) (s : Sched) (q : Contents)
    → Sleepers s q t ws
    → for_each wake_waiter (wait_list_of t) s ≡ some (wake_all ws s)
unfolding for_each
for_each-wake_all t ws s q z =
    ap (λ p. list_for_each_safe 11 wake_waiter (wait_list_of t) p s)
      (Chain-next s.links.next (wait_list_of t) (wait_anchors ws) (wait_list_of t)
        z.waits.ring.forward)
    ∙ wake_loop 11 t ws s q z (
        omega
          (arith, length-slots ws (Distinct-wait_anchors ws z.waits.ring.distinct.1) z.waits.slots))
