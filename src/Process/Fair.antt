-- ===== src/Process/Fair.antt =====
-- The clock is fair: every ready process gets its turn.
use mathlib.Core.List.{append_assoc}
use so2_joan_erik.Common.{
  ℕ, zero, suc, ◌+◌, ◌≡◌, refl, true, List, ◌∷◌, ◌++◌, [], arith, has, sym, subst, ap, ◌∙◌, pos,
  ◌-ℤ◌,
}
use so2_joan_erik.Sched.{Sched, sched_next_rr, needs_sched_rr, update_sched_data_rr}
use so2_joan_erik.Sched.Queues.{q_ready, Contents}
use so2_joan_erik.Sched.Cycle.{
  Cycling, Cycling-Runs, rotated, sched_next_rr-Cycling, sched_next_rr_same,
}
use so2_joan_erik.Sched.RoundRobin.{after, sched_next_rr-Scheduled}
use so2_joan_erik.Links.Ring.{head_or}
use so2_joan_erik.Screen.{Screen}
use so2_joan_erik.Kernel.{Kernel}
use so2_joan_erik.Process.{clock_routine}
use so2_joan_erik.Process.Block.{clock_routine_keeps}

-- `n` interrupts of the clock, one after the other.
unfoldable pub clock_ticks : (Screen → Screen) → ℕ → Kernel → Kernel
clock_ticks show zero k = k
clock_ticks show (suc n) k = clock_ticks show n (clock_routine show k)

-- The counter of the quantum at zero.
abbrev pub spent : Sched → Sched
spent s = record s { tick_counter = pos 0 }

clock_ticks_add :
    (show : Screen → Screen) (m n : ℕ) (k : Kernel)
    → clock_ticks show (m + n) k ≡ clock_ticks show n (clock_ticks show m k)
unfolding clock_ticks
clock_ticks_add show zero n k = ap (λ x. clock_ticks show x k) {x = 0 + n} {y = n} (omega arith)
clock_ticks_add show (suc m) n k =
    ap (λ x. clock_ticks show x k) {x = suc m + n} {y = suc (m + n)} (omega arith)
    ∙ clock_ticks_add show m n (clock_routine show k)

-- A quantum of `n` ticks: the scheduler is called at its last tick and not before.
clock_ticks-quantum :
    (show : Screen → Screen) (n : ℕ) (k : Kernel)
    → k.sched.tick_counter ≡ pos (suc n)
    → (clock_ticks show (suc n) k).sched ≡ sched_next_rr (spent k.sched)
unfolding clock_ticks clock_routine update_sched_data_rr needs_sched_rr
clock_ticks-quantum show zero k e = rw e refl
clock_ticks-quantum show (suc n) k e =
    let l : (clock_routine show k).sched
        ≡ record (k.sched) { tick_counter = k.sched.tick_counter -ℤ pos 1 } =
      (clock_routine_keeps show k (rw e (omega arith))).0 in
    clock_ticks-quantum show n (clock_routine show k)
      (ap (λ (x : Sched). x.tick_counter) l ∙ rw e (ground arith))
    ∙ ap (λ x. sched_next_rr (spent x)) l

spent-Cycling : {s : Sched} {q : Contents} → Cycling s q → Cycling (spent s) q
spent-Cycling c = record {
  inv = record {
    holds = c.inv.holds;
    tagged = c.inv.tagged;
    listed = c.inv.listed;
    idle_slot = c.inv.idle_slot;
    idle_pid = c.inv.idle_pid;
    idle_unlisted = c.inv.idle_unlisted;
  };
  slot = c.slot;
  running = c.running;
  process = c.process;
  unlisted = c.unlisted;
  unique = c.unique;
}

-- The ticks until all of `ts` have had their quantum, of `quantum` ticks and one more.
abbrev pub ticks_of : (ℕ → ℕ) → List ℕ → ℕ
ticks_of quantum [] = 0
ticks_of quantum (t ∷ ts) = suc (quantum t) + ticks_of quantum ts

-- The process `t` runs, and `caller` and those that ran before it wait behind the others.
pub record HasTurn (caller : ℕ) (k' : Kernel) (xs : List ℕ) (t : ℕ) (ys : List ℕ) : Type 0 where
  pub queues : Contents
  pub current : k'.sched.current ≡ t
  pub cycling : Cycling k'.sched queues
  pub order : queues q_ready ≡ ys ++ caller ∷ xs

-- The quantum of the caller has run down.
one_turn :
    (show : Screen → Screen) (n : ℕ) (t : ℕ) (ts : List ℕ) (k : Kernel) {q : Contents}
    → Cycling k.sched q
    → q q_ready ≡ t ∷ ts
    → k.sched.tick_counter ≡ pos (suc n)
    → HasTurn k.sched.current (clock_ticks show (suc n) k) [] t ts
      × ((clock_ticks show (suc n) k).sched.tick_counter ≡ (k.sched.tasks t).quantum)
      × ((u : ℕ) → ((clock_ticks show (suc n) k).sched.tasks u).quantum ≡ (k.sched.tasks u).quantum)
one_turn show n t ts k {q} c e tick =
    let l : (clock_ticks show (suc n) k).sched ≡ sched_next_rr (spent k.sched) =
      clock_ticks-quantum show n k tick in
    let c' : Cycling (spent k.sched) q = spent-Cycling c in
    let r = rotated c' t ts e in
    (
      record {
        queues = after (spent k.sched) q;
        current = ap (λ (s : Sched). s.current) l ∙ r.0;
        cycling =
            subst (λ s. Cycling s (after (spent k.sched) q)) (sym l)
              (sched_next_rr-Cycling c' t ts e);
        order = r.3;
      },
      ap (λ (s : Sched). s.tick_counter) l
          ∙ (sched_next_rr-Scheduled c'.inv (Cycling-Runs c')).next.ticks
          ∙ ap (λ ts. (k.sched.tasks (head_or k.sched.idle_task ts)).quantum) e,
      λ u. ap (λ (s : Sched). (s.tasks u).quantum) l ∙ (sched_next_rr_same (spent k.sched) u).1,
    )

-- While processes take turns, whose quanta are positive: when the counter and the quanta of the
-- ready processes before `t` have run down, `t` runs, and the caller and those processes wait in
-- their order behind the others.
pub clock_ticks-HasTurn :
    (show : Screen → Screen) (n : ℕ) (quantum : ℕ → ℕ) (xs : List ℕ) (t : ℕ) (ys : List ℕ)
    (k : Kernel) (q : Contents)
    → Cycling k.sched q
    → q q_ready ≡ xs ++ t ∷ ys
    → k.sched.tick_counter ≡ pos (suc n)
    → ((x : ℕ) → has x xs ≡ true → (k.sched.tasks x).quantum ≡ pos (suc (quantum x)))
    → HasTurn k.sched.current (clock_ticks show (suc n + ticks_of quantum xs) k) xs t ys
clock_ticks-HasTurn show n quantum [] t ys k q c e tick same =
    subst (λ m. HasTurn k.sched.current (clock_ticks show m k) [] t ys) {x = suc n} {y = suc n + 0}
      (omega arith) (one_turn show n t ys k c e tick).0
clock_ticks-HasTurn show n quantum (x ∷ xs) t ys k q c e tick same =
    let k1 : Kernel = clock_ticks show (suc n) k in
    let a = one_turn show n x (xs ++ t ∷ ys) k c e tick in
    let later : HasTurn k1.sched.current
        (clock_ticks show (suc (quantum x) + ticks_of quantum xs) k1) xs t
        (ys ++ k.sched.current ∷ []) =
      clock_ticks-HasTurn show (quantum x) quantum xs t (ys ++ k.sched.current ∷ []) k1 a.0.queues
        a.0.cycling (a.0.order ∙ append_assoc xs (t ∷ ys) (k.sched.current ∷ []))
        (a.1 ∙ same x (ground arith)) (λ y h. a.2 y ∙ same y (ground arith)) in
    subst (λ k'. HasTurn k.sched.current k' (x ∷ xs) t ys)
      (sym (clock_ticks_add show (suc n) (suc (quantum x) + ticks_of quantum xs) k))
      (record {
        queues = later.queues;
        current = later.current;
        cycling = later.cycling;
        order =
            later.order
            ∙ append_assoc ys (k.sched.current ∷ []) (k1.sched.current ∷ xs)
            ∙ ap (λ u. ys ++ k.sched.current ∷ u ∷ xs) a.0.current;
      })
