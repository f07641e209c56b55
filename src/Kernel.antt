-- ===== src/Kernel.antt =====
-- The state that the system calls share, and the way in which they give the CPU away.
--
-- A system call that calls the scheduler may stop in the middle: another task runs, and the call
-- goes on when its task is chosen again, in the state that the kernel has then. A call is therefore
-- a function from the kernel's state to a `Run`.
use so2_joan_erik.Common.{◌≡◌, ◌≢◌, refl, ne→==, ℕ, Bool, ◌==◌, if◌then◌else◌, ℤ}
use so2_joan_erik.Links.{Links}
use so2_joan_erik.Sched.{Sched, sched_next_rr, update_process_state_rr}
use so2_joan_erik.Keyboard.{KeyBuffer}
use so2_joan_erik.Screen.{Screen}

-- struct semaphore, but for its list head.
pub record Semaphore : Type 0 where
  pub id : ℤ
  pub value : ℤ
  pub free : Bool
  pub creator_pid : ℤ

pub record Kernel : Type 0 where
  pub sched : Sched
  pub semaphores : ℕ → Semaphore
  pub pid_global : ℤ
  pub sem_id_global : ℤ
  pub sem_id_system : ℤ
  pub keys : KeyBuffer
  pub screen : Screen
  pub zeos_tick : ℤ

-- The call has returned; or another task runs in the state given, and the call goes on from the
-- state in which its task is chosen again; or a loop of the model ran out of fuel.
pub data Run (A : Type 0) : Type 0 where
  done : A → Kernel → Run A
  switched : Kernel → (Kernel → Run A) → Run A
  out_of_fuel : Run A

abbrev pub Call : Type 0 → Type 0
Call A = Kernel → Run A

abbrev pub pure : {A : Type 0} → A → Call A
pure a k = done a k

module _ {A B : Type 0} where
  abbrev pub and_then : Run A → (A → Call B) → Run B
  and_then (done a k) f = f a k
  and_then (switched k resume) f = switched k (λ k'. and_then (resume k') f)
  and_then out_of_fuel f = out_of_fuel

  infixl 5 ◌>>=◌ ◌>>◌
  abbrev pub ◌>>=◌ : Call A → (A → Call B) → Call B
  m >>= f = λ k. and_then (m k) f

  abbrev pub ◌>>◌ : Call A → Call B → Call B
  m >> n = m >>= λ _. n

abbrev pub get : Call Kernel
get k = done k k

abbrev pub modify : (Kernel → Kernel) → Call (Unit {0})
modify f k = done tt (f k)

abbrev pub modify_sched : (Sched → Sched) → Call (Unit {0})
modify_sched f = modify λ k. record k { sched = f k.sched }

abbrev pub modify_links : (Links → Links) → Call (Unit {0})
modify_links f = modify_sched λ s. record s { links = f s.links }

-- update_process_state_rr as a step of a call.
abbrev pub move_to : ℕ → ℕ → Call (Unit {0})
move_to t dest = modify_sched λ s. update_process_state_rr s t dest

-- A call of sched_next_rr returns at once if the same task goes on.
unfoldable pub yield : Call (Unit {0})
yield k =
    let k' = record k { sched = sched_next_rr k.sched } in
    if k'.sched.current == k.sched.current then done tt k' else switched k' (pure tt)

-- A call that finds another task chosen stops here.
pub yield-switched :
    (k : Kernel)
    → (sched_next_rr k.sched).current ≢ k.sched.current
    → yield k ≡ switched (record k { sched = sched_next_rr k.sched }) (pure tt)
unfolding yield
yield-switched k h = rw (ne→== h) refl
