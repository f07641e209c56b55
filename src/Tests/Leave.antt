-- ===== src/Tests/Leave.antt =====
-- sys_exit of a process with a parent, a child and a waiter.
use so2_joan_erik.Common.{
  pos, ℕ, ◌≡◌, refl, Bool, true, List, [], ◌∷◌, arith, ◌==◌, ◌||◌, if◌then◌else◌, ◌≢◌, ◌⊎◌, inl,
  inr, subst,
}
use so2_joan_erik.Links.{Links, init_list_head, list_add_tail}
use so2_joan_erik.Links.Ring.{Ring}
use so2_joan_erik.Task.{IsSlot, fills_of, parent_anchor_of, wait_list_of, wait_anchor_of, blocked}
use so2_joan_erik.Sched.{Sched, place, unlink, state_for, update_process_state_rr}
use so2_joan_erik.Sched.Queues.{
  Queue, q_free, q_ready, q_blocked, q_read_blocked, Contents, take, enqueue, head_of,
}
use so2_joan_erik.Sched.Invariant.{Inv}
use so2_joan_erik.Sched.Moves.{update_process-Inv}
use so2_joan_erik.Threads.Family.{Children}
use so2_joan_erik.Exit.Families.{Families}
use so2_joan_erik.Exit.Waiting.{WaitsFor}
use so2_joan_erik.Exit.Orphans.{Leaving}
use so2_joan_erik.Exit.Exits.{Exits, sys_exit-Exits}
use so2_joan_erik.Exit.Joins.{Joins, sys_wait_thread-Joins}
use so2_joan_erik.Process.Wait.{find_task, sys_wait_thread}
use so2_joan_erik.Sched.RoundRobin.{Runs}
use so2_joan_erik.Kernel.{Kernel}
use so2_joan_erik.Boot.{init_family}
use so2_joan_erik.Tests.Queues.{
  alone, idle_at, no_tasks, first_at, second_at, third_at, first-IsSlot, second-IsSlot, self-Ring,
  empty_links,
}
use so2_joan_erik.Tests.Start.{machine_of}

-- The first process is a child of the second, and the third a child of the first, for which it waits.
abbrev home_links : Links
home_links =
    let heads =
      init_family (init_family (init_family (init_family empty_links idle_at) first_at) second_at)
        third_at in
    let l1 = list_add_tail heads (parent_anchor_of first_at) (fills_of second_at) in
    let l2 = list_add_tail l1 (parent_anchor_of third_at) (fills_of first_at) in
    list_add_tail l2 (wait_anchor_of third_at) (wait_list_of first_at)

abbrev home : Sched
home = record alone { links = home_links }

home-Ring : (k : Queue) → Ring home_links (head_of k) []
unfolding init_list_head list_add_tail
home-Ring q_free = self-Ring home_links 24 refl refl (omega arith)
home-Ring q_ready = self-Ring home_links 16 refl refl (omega arith)
home-Ring q_blocked = self-Ring home_links 32 refl refl (omega arith)
home-Ring q_read_blocked = self-Ring home_links 40 refl refl (omega arith)

home-Inv : Inv home no_tasks
home-Inv = record {
  holds = record {
    rings = home-Ring;
    slots = λ k t h. ground (arith, h);
    apart = λ j k t h. ground (arith, h);
  };
  tagged = λ k t h. ground (arith, h);
  listed = λ t slot p. tt;
  idle_slot = record { aligned = refl; above = omega arith; below = omega arith };
  idle_pid = refl;
  idle_unlisted = λ k. refl;
}

third-IsSlot : IsSlot third_at
third-IsSlot = record { aligned = refl; above = omega arith; below = omega arith }

abbrev waited : Sched
waited = update_process_state_rr home third_at blocked

abbrev third_blocked : Contents
third_blocked = enqueue (take no_tasks third_at) q_blocked third_at

waited-Inv : Inv waited third_blocked
waited-Inv = update_process-Inv home-Inv third_at third-IsSlot q_blocked refl (λ r k. refl)

abbrev is_live : ℕ → Bool
is_live t = (t == idle_at) || ((t == first_at) || ((t == second_at) || (t == third_at)))

abbrev kids_of : ℕ → List ℕ
kids_of t = if t == second_at then first_at ∷ [] else if t == first_at then third_at ∷ [] else []

single-Ring :
    (m : Links) (h x : ℕ)
    → m.next h ≡ x
    → m.next x ≡ h
    → m.prev h ≡ x
    → m.prev x ≡ h
    → h ≢ x
    → h ≢ 0
    → x ≢ 0
    → Ring m h (x ∷ [])
single-Ring m h x n1 n2 p1 p2 ne h0 x0 = record {
  forward = (n1, n2);
  backward = (p2, p1);
  distinct = ground (arith, ne);
  not_null = ground (arith, h0, x0);
}

childless :
    (p : ℕ)
    → IsSlot p
    → waited.links.next (fills_of p) ≡ fills_of p
    → waited.links.prev (fills_of p) ≡ fills_of p
    → Children waited.links p []
childless p slot n e = record {
  ring = self-Ring waited.links (fills_of p) n e (omega arith);
  slots = λ t h. ground (arith, h);
  parent = slot;
}

first_child : Children waited.links first_at (third_at ∷ [])
unfolding update_process_state_rr place unlink state_for init_list_head list_add_tail
first_child = record {
  ring =
      single-Ring waited.links (fills_of first_at) (parent_anchor_of third_at) refl refl refl refl
        (omega arith) (omega arith) (omega arith);
  slots = λ t h. subst IsSlot {x = third_at} {y = t} (ground (arith, h)) third-IsSlot;
  parent = first-IsSlot;
}

second_child : Children waited.links second_at (first_at ∷ [])
unfolding update_process_state_rr place unlink state_for init_list_head list_add_tail
second_child = record {
  ring =
      single-Ring waited.links (fills_of second_at) (parent_anchor_of first_at) refl refl refl refl
        (omega arith) (omega arith) (omega arith);
  slots = λ t h. subst IsSlot {x = first_at} {y = t} (ground (arith, h)) first-IsSlot;
  parent = second-IsSlot;
}

live-cases :
    (p : ℕ)
    → is_live p ≡ true
    → (idle_at ≡ p) ⊎ ((first_at ≡ p) ⊎ ((second_at ≡ p) ⊎ (third_at ≡ p)))
live-cases p h = ground (arith, h)

waited-Families : Families waited.links is_live kids_of
unfolding update_process_state_rr place unlink state_for init_list_head list_add_tail
waited-Families = record {
  family = λ p l. elim (live-cases p l) [
    | inl e ↦
        subst (λ x. Children waited.links x (kids_of x)) e
          (childless idle_at (record { aligned = refl; above = omega arith; below = omega arith })
            refl refl)
    | inr (inl e) ↦ subst (λ x. Children waited.links x (kids_of x)) e first_child
    | inr (inr (inl e)) ↦ subst (λ x. Children waited.links x (kids_of x)) e second_child
    | inr (inr (inr e)) ↦
        subst (λ x. Children waited.links x (kids_of x)) e
          (childless third_at third-IsSlot refl refl)
  ];
  apart = λ p p' c l l' h h'. ground (arith, h, h');
}

waited-Leaving : Leaving waited third_blocked is_live kids_of second_at (third_at ∷ [])
unfolding update_process_state_rr place unlink state_for init_list_head list_add_tail
waited-Leaving = record {
  inv = waited-Inv;
  slot = first-IsSlot;
  running = refl;
  process = refl;
  unlisted = λ k. ground arith;
  families = waited-Families;
  lives = refl;
  idle_lives = refl;
  parent_lives = refl;
  child = refl;
  not_own = λ e. omega (arith, e);
  idle_above = refl;
  waits = record {
    ring =
        single-Ring waited.links (wait_list_of first_at) (wait_anchor_of third_at) refl refl refl
          refl (omega arith) (omega arith) (omega arith);
    slots = λ w h. subst IsSlot {x = third_at} {y = w} (ground (arith, h)) third-IsSlot;
    slot = first-IsSlot;
  };
  sleeps = λ w h. ground (arith, h);
}

sys_exit-Exits_example : Exits 5 (machine_of waited 1) third_blocked is_live kids_of (third_at ∷ [])
unfolding update_process_state_rr place unlink state_for
sys_exit-Exits_example = sys_exit-Exits 5 (machine_of waited 1) waited-Leaving (λ i h. refl)

waited-Runs : Runs waited third_blocked
unfolding update_process_state_rr place unlink state_for init_list_head list_add_tail
waited-Runs = record {
  slot = first-IsSlot;
  unlisted = λ h k. ground arith;
  live = λ h. refl;
  idle = λ h. ground (arith, h);
  unique = λ t h e. ground (arith, h, e);
}

second_waits : WaitsFor waited.links second_at []
unfolding update_process_state_rr place unlink state_for init_list_head list_add_tail
second_waits = record {
  ring = self-Ring waited.links (wait_list_of second_at) refl refl (omega arith);
  slots = λ w h. ground (arith, h);
  slot = second-IsSlot;
}

abbrev waiting_kernel : Kernel
waiting_kernel = (machine_of waited 1).kernel

sys_wait_thread-Joins_example :
    Joins waiting_kernel third_blocked second_at [] (sys_wait_thread (pos 2) waiting_kernel)
unfolding update_process_state_rr place unlink state_for find_task
sys_wait_thread-Joins_example =
    sys_wait_thread-Joins (pos 2) second_at refl waited-Inv waited-Runs refl refl second_waits refl
