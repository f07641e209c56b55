-- ===== src/Exit/Joins.antt =====
-- sys_wait_thread: the caller waits until a task ends.
use so2_joan_erik.Common.{
  ℕ, ◌≡◌, refl, true, false, List, [], ◌∷◌, ◌++◌, arith, has, some, ℤ, is_pos,
}
use so2_joan_erik.Links.{list_add_tail}
use so2_joan_erik.Links.Ring.{SameAt}
use so2_joan_erik.Task.{nr_tasks, is_run, wait_list_of, wait_anchor_of}
use so2_joan_erik.Sched.{Sched, set_links, sched_next_rr}
use so2_joan_erik.Sched.Queues.{q_blocked, Contents, take, enqueue}
use so2_joan_erik.Sched.Invariant.{Inv}
use so2_joan_erik.Sched.RoundRobin.{Runs, next_of}
use so2_joan_erik.Sched.Spared.{
  IsElsewhere, Inv-elsewhere, update_process-spared, sched_next_rr-spared,
}
use so2_joan_erik.Kernel.{Kernel, Run, done, switched, yield-switched}
use so2_joan_erik.Process.Block.{
  asleep, asleep-Inv, asleep-Runs, asleep_next, asleep_left, asleep_queues,
}
use so2_joan_erik.Process.Wait.{find_task, wait_for, sys_wait_thread}
use so2_joan_erik.Exit.Waiting.{WaitsFor, WaitsFor-same, join-WaitsFor, join_same}

-- The caller in the list of those that wait for `t`.
abbrev pub waiting : Sched → ℕ → Sched
waiting s t = set_links s (list_add_tail s.links (wait_anchor_of s.current) (wait_list_of t))

-- The caller is the last that waits for `t` and the last of the blocked processes; the oldest ready
-- process, or the idle task, runs. When the caller is chosen again, the call returns the PID that the
-- descriptor has then.
pub record Joins (k : Kernel) (q : Contents) (t : ℕ) (ws : List ℕ) (m : Run ℤ) : Type 0 where
  pub after : Kernel
  pub resume : Kernel → Run ℤ
  pub run : m ≡ switched after resume
  pub resumes : (k' : Kernel) → resume k' ≡ done (k'.sched.tasks t).pid k'
  pub waits : WaitsFor after.sched.links t (ws ++ k.sched.current ∷ [])
  pub queues : Inv after.sched (take (enqueue q q_blocked k.sched.current) (next_of k.sched q))
  pub next : after.sched.current ≡ next_of k.sched q

waiting-Runs : {s : Sched} {q : Contents} (t : ℕ) → Runs s q → Runs (waiting s t) q
waiting-Runs t r = record {
  slot = r.slot;
  unlisted = r.unlisted;
  live = r.live;
  idle = r.idle;
  unique = r.unique;
}

-- On queues as `Inv` says, for a running process as `Runs` says that does not wait for it yet: a call of
-- sys_wait_thread with the PID of a task makes the caller wait for that task, as `Joins` says.
pub sys_wait_thread-Joins :
    {k : Kernel} {q : Contents} {ws : List ℕ} (pid : ℤ) (t : ℕ)
    → find_task nr_tasks pid 0 k ≡ some t
    → Inv k.sched q
    → Runs k.sched q
    → is_run (k.sched.tasks k.sched.current).current_state ≡ true
    → is_pos (k.sched.tasks k.sched.current).pid ≡ true
    → WaitsFor k.sched.links t ws
    → has k.sched.current ws ≡ false
    → Joins k q t ws (sys_wait_thread pid k)
unfolding sys_wait_thread wait_for
sys_wait_thread-Joins {k} {q} {ws} pid t found i r run process f fresh =
    let s1 : Sched = waiting k.sched t in
    let i1 : Inv s1 q =
      Inv-elsewhere _ i (λ a h. join_same f k.sched.current r.slot fresh a (ground (arith, h))) in
    let r1 : Runs s1 q = waiting-Runs t r in
    let asleep_same : (a : ℕ) → IsElsewhere a → SameAt s1.links (asleep s1).links a =
      λ a e. update_process-spared i1 k.sched.current r.slot process r.unlisted a e q_blocked in
    let w1 : WaitsFor (asleep s1).links t (ws ++ k.sched.current ∷ []) =
      WaitsFor-same (join-WaitsFor f k.sched.current r.slot fresh) (asleep s1).links asleep_same in
    record {
      after = record k { sched = sched_next_rr (asleep s1) };
      resume = λ k'. done (k'.sched.tasks t).pid k';
      run = rw found (
          rw (yield-switched (record k { sched = asleep s1 }) (asleep_left i1 r1 run process))
            refl);
      resumes = λ k'. refl;
      waits =
          WaitsFor-same w1 (sched_next_rr (asleep s1)).links
            (sched_next_rr-spared (asleep-Inv i1 r1 run process) (asleep-Runs i1 r1 run process));
      queues = asleep_queues i1 r1 run process;
      next = asleep_next i1 r1 run process;
    }
