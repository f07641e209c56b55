-- ===== src/Boot/Queues.antt =====
-- init_sched puts all descriptors into the free queue.
use so2_joan_erik.Common.{
  ℕ, zero, suc, ◌+◌, ◌<◌, ◌≤◌, ◌≡◌, refl, ◌∙◌, sym, subst, true, false, [], ◌==◌, ==→eq, ==_refl,
  for_up, arith, has, Bool-cases, inl, inr, negsuc, is_neg,
}
use so2_joan_erik.Links.{Links, init_list_head}
use so2_joan_erik.Links.Ring.{Ring}
use so2_joan_erik.Task.{st_free, nr_tasks, task_addr, freequeue, IsSlot, num_sems}
use so2_joan_erik.Sched.{Sched}
use so2_joan_erik.Sched.Queues.{
  Queue, q_free, head_of, Contents, Holds, enqueue, list_add_tail-enqueue, has-enqueue,
}
use so2_joan_erik.Sched.Moves.{update_free-eq}
use so2_joan_erik.Kernel.{Kernel}
use so2_joan_erik.Machine.{Machine, set_task}
use so2_joan_erik.Boot.{links_of, init_heads, init_slot, free_sem, init_sched}

-- The free queue of the first `i` descriptors.
abbrev pub filled : ℕ → Contents
filled zero k = []
filled (suc i) k = enqueue (filled i) q_free (task_addr i) k

init_heads-Ring : (l : Links) (k : Queue) → Ring (init_heads l) (head_of k) []
unfolding init_heads init_list_head
init_heads-Ring l k = record {
  forward = ground arith;
  backward = ground arith;
  distinct = ground arith;
  not_null = ground arith;
}

IsSlot-addr : (i : ℕ) → i < nr_tasks → IsSlot (task_addr i)
IsSlot-addr i h = record { aligned = omega arith; above = omega arith; below = omega arith }

filled-absent : (i j : ℕ) (k : Queue) → i ≤ j → has (task_addr j) (filled i k) ≡ false
filled-absent zero j k h = refl
filled-absent (suc i) j k h =
    has-enqueue (filled i) k q_free (task_addr j) (task_addr i)
    ∙ ground (arith, filled-absent i j k (omega arith))

-- The first `i` descriptors are in the free queue, and free.
pub record Freed (i : ℕ) (s : Sched) : Type 0 where
  pub holds : Holds s.links (filled i)
  pub pids : (j : ℕ) → j < i → (s.tasks (task_addr j)).pid ≡ negsuc 0
  pub states : (j : ℕ) → j < i → (s.tasks (task_addr j)).current_state ≡ st_free

init_slot-Freed :
    (i : ℕ) (m : Machine)
    → i < nr_tasks
    → Freed i m.kernel.sched
    → Freed (suc i) (init_slot i m).kernel.sched
unfolding init_slot
init_slot-Freed i m h f = rw (update_free-eq s' (task_addr i) freequeue neg) (record {
  holds =
      list_add_tail-enqueue f.holds (task_addr i) q_free (IsSlot-addr i h)
        (λ k. filled-absent i i k (omega arith));
  pids = λ j lt. elim (Bool-cases (j == i)) [
    | inl e ↦ let p : j ≡ i = ==→eq j i e in rw (p, ==_refl (task_addr i)) refl
    | inr e ↦
        let ne : (task_addr j == task_addr i) ≡ false = ground (arith, e) in
        rw ne (f.pids j (ground (arith, e)))
  ];
  states = λ j lt. elim (Bool-cases (j == i)) [
    | inl e ↦ let p : j ≡ i = ==→eq j i e in rw (p, ==_refl (task_addr i)) refl
    | inr e ↦
        let ne : (task_addr j == task_addr i) ≡ false = ground (arith, e) in
        rw ne (f.states j (ground (arith, e)))
  ];
})
  where
    s' : Sched
    s' =
        let t = m.kernel.sched.tasks (task_addr i) in
        (set_task m (task_addr i) (record t { pid = negsuc 0 })).kernel.sched

    neg : is_neg (s'.tasks (task_addr i)).pid ≡ true
    neg = rw (==_refl (task_addr i)) refl

init_slots-Freed :
    (n i : ℕ) (m : Machine)
    → i + n ≡ nr_tasks
    → Freed i m.kernel.sched
    → Freed nr_tasks (for_up n i init_slot m).kernel.sched
unfolding for_up
init_slots-Freed zero i m h f =
    let e : i ≡ nr_tasks = omega arith in subst (λ x. Freed x m.kernel.sched) e f
init_slots-Freed (suc n) i m h f =
    let next : suc i ≡ i + 1 = omega arith in
    init_slots-Freed n (i + 1) (init_slot i m) (omega arith)
      (subst (λ x. Freed x (init_slot i m).kernel.sched) next (init_slot-Freed i m (omega arith) f))

free_sems-sched : (n i : ℕ) (k : Kernel) → (for_up n i free_sem k).sched ≡ k.sched
unfolding for_up free_sem
free_sems-sched zero i k = refl
free_sems-sched (suc n) i k = free_sems-sched n (i + 1) (free_sem i k)

-- Whatever the memory held, init_sched leaves all ten descriptors free, with PID -1, and in the free
-- queue, in their order, and the other queues empty.
pub init_sched-Freed : (m : Machine) → Freed nr_tasks (init_sched m).kernel.sched
unfolding init_sched
init_sched-Freed m = init_slots-Freed nr_tasks 0 _ refl (
    subst (Freed 0) (sym (free_sems-sched num_sems 0 _)) (record {
      holds = record {
        rings = init_heads-Ring (links_of m);
        slots = λ k t h. ground (arith, h);
        apart = λ j k t h. ground (arith, h);
      };
      pids = λ j h. absurd (omega arith);
      states = λ j h. absurd (omega arith);
    }))
