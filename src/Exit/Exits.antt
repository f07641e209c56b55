-- ===== src/Exit/Exits.antt =====
-- sys_exit of a process that has created no semaphore.
use so2_joan_erik.Common.{
  ℕ, zero, suc, ◌+◌, ◌<◌, ◌≡◌, refl, Bool, false, List, arith, ap, ◌∙◌, eqb_ℤ, Option, some,
}
use so2_joan_erik.Task.{num_sems}
use so2_joan_erik.Sched.{Sched}
use so2_joan_erik.Sched.Queues.{Contents}
use so2_joan_erik.Kernel.{Kernel}
use so2_joan_erik.Machine.{Machine, get_pt}
use so2_joan_erik.Threads.{on_sched}
use so2_joan_erik.Exit.{Exit, left, destroy_sems, release_memory, leave, leave_with, sys_exit}
use so2_joan_erik.Exit.Orphans.{Leaving}
use so2_joan_erik.Exit.Memory.{Released, release_memory-Released, release_memory_kernel}
use so2_joan_erik.Exit.Leaves.{Left, leave-Left}

-- No entry but a free one that no process has used names the task as its creator.
abbrev pub CreatesNone : Kernel → ℕ → Type 0
CreatesNone k t =
    (i : ℕ) → i < num_sems → eqb_ℤ (k.semaphores i).creator_pid (k.sched.tasks t).pid ≡ false

destroy_sems_none :
    (fuel n i ct : ℕ) (next_step : Machine → Exit) (m : Machine)
    → ((j : ℕ)
        → j < i + n
        → eqb_ℤ (m.kernel.semaphores j).creator_pid (m.kernel.sched.tasks ct).pid ≡ false)
    → destroy_sems fuel n i ct next_step m ≡ next_step m
unfolding destroy_sems
destroy_sems_none fuel zero i ct next_step m h = refl
destroy_sems_none fuel (suc n) i ct next_step m h =
    rw (h i (omega arith))
      (destroy_sems_none fuel n (i + 1) ct next_step m (λ j l. h j (omega (arith, l))))

-- What sys_exit leaves behind: the memory as the release leaves it, and the scheduler.
pub record Exits (fuel : ℕ) (m : Machine) (q : Contents) (live : ℕ → Bool) (kids : ℕ → List ℕ)
    (ws : List ℕ) : Type 0 where
  pub sched : Sched
  pub ends :
      let ct = m.kernel.sched.current in
      sys_exit fuel m ≡ left (on_sched (λ _. sched) (release_memory (get_pt m ct) ct m))
  pub memory :
      let ct = m.kernel.sched.current in
      let pt = get_pt m ct in Released pt ct m (release_memory pt ct m)
  pub state : Left m.kernel.sched sched q live kids ws

leave_with-some :
    (m : Machine) {o : Option Sched} (s : Sched)
    → o ≡ some s
    → leave_with m o ≡ left (on_sched (λ _. s) m)
leave_with-some m s e = ap (leave_with m) e

-- For a running process as `Leaving` says that is the creator of no semaphore, sys_exit ends, for any
-- fuel. Its children are the youngest of the idle task, which is their parent; its parent has lost it,
-- and the other families are as they were; those that waited for it are ready, behind the others; its
-- descriptor is free, with PID -1, and the oldest ready process runs. If no task uses its directory any
-- more, its private pages are empty; those of their frames that lie above frame 256 and below 1024 are
-- free, and the frames up to 256 are as they were; nothing else of the memory has changed.
pub sys_exit-Exits :
    {q : Contents} {live : ℕ → Bool} {kids : ℕ → List ℕ} {parent : ℕ} {ws : List ℕ} (fuel : ℕ)
    (m : Machine)
    → Leaving m.kernel.sched q live kids parent ws
    → CreatesNone m.kernel m.kernel.sched.current
    → Exits fuel m q live kids ws
unfolding sys_exit
sys_exit-Exits fuel m g none_made =
    let l = leave-Left g in
    let ct : ℕ = m.kernel.sched.current in
    let freed : Machine = release_memory (get_pt m ct) ct m in
    record {
      sched = l.0;
      ends =
          destroy_sems_none fuel num_sems 0 ct _ m (λ j h. none_made j (omega (arith, h)))
          ∙ leave_with-some freed l.0 (
              ap (λ (k : Kernel). leave ct k.sched) (release_memory_kernel (get_pt m ct) ct m)
              ∙ l.1);
      memory = release_memory-Released (get_pt m ct) ct m;
      state = l.2;
    }
