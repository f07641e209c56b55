-- ===== src/Sched/Unchanged.antt =====
-- What update_process_state_rr and the switch leave alone.
use so2_joan_erik.Common.{ℕ, ◌≡◌, refl, ◌≢◌, false, arith, inl, inr, Bool-cases, is_neg}
use so2_joan_erik.Links.{null}
use so2_joan_erik.Task.{st_run, is_run, readyqueue}
use so2_joan_erik.Sched.{Sched, requeue_current, free_task, unlink, place, update_process_state_rr}

-- What update_process_state_rr leaves alone.
pub record SameButState (s s' : Sched) (t : ℕ) : Type 0 where
  pub pid : (u : ℕ) → (s'.tasks u).pid ≡ (s.tasks u).pid
  pub dir : (u : ℕ) → (s'.tasks u).dir_pages_base_addr ≡ (s.tasks u).dir_pages_base_addr
  pub quantum : (u : ℕ) → (s'.tasks u).quantum ≡ (s.tasks u).quantum
  pub pare : (u : ℕ) → (s'.tasks u).pare ≡ (s.tasks u).pare
  pub state : (u : ℕ) → u ≢ t → (s'.tasks u).current_state ≡ (s.tasks u).current_state
  pub current : s'.current ≡ s.current
  pub idle : s'.idle_task ≡ s.idle_task
  pub cr3 : s'.cr3 ≡ s.cr3
  pub esp0 : s'.tss_esp0 ≡ s.tss_esp0
  pub msr : s'.msr_esp ≡ s.msr_esp

pub update_process_state_rr_same :
    (s : Sched) (t dest : ℕ) → SameButState s (update_process_state_rr s t dest) t
unfolding update_process_state_rr free_task unlink place
update_process_state_rr_same s t dest = record {
  pid = λ u. ground arith;
  dir = λ u. ground arith;
  quantum = λ u. ground arith;
  pare = λ u. ground arith;
  state = λ u h. ground arith;
  current = ground arith;
  idle = ground arith;
  cr3 = ground arith;
  esp0 = ground arith;
  msr = ground arith;
}

pub requeue_current_same : (s : Sched) → SameButState s (requeue_current s) s.current
unfolding requeue_current
requeue_current_same s = elim (Bool-cases (is_run (s.tasks s.current).current_state)) [
  | inl e ↦ rw e (update_process_state_rr_same s s.current readyqueue)
  | inr e ↦ rw e (record {
    pid = λ u. refl;
    dir = λ u. refl;
    quantum = λ u. refl;
    pare = λ u. refl;
    state = λ u h. refl;
    current = refl;
    idle = refl;
    cr3 = refl;
    esp0 = refl;
    msr = refl;
  })
]

pub update_run_state :
    (s : Sched) (t : ℕ)
    → is_neg (s.tasks t).pid ≡ false
    → ((update_process_state_rr s t null).tasks t).current_state ≡ st_run
unfolding update_process_state_rr free_task unlink place
update_run_state s t p = ground arith
