-- ===== src/Semaphore.antt =====
-- The semaphores of sys.c.
--
-- The `int` counters are mathematical integers: a value or an identifier that overflows is outside
-- of the model. The loops over the array run on the entries left.
pub mod Waiting
pub mod Wait
pub mod Signal
pub mod Create
pub mod Destroy
pub mod Errors
use so2_joan_erik.Common.{
  ℕ, zero, suc, ◌+◌, Bool, true, false, ◌&&◌, not, Option, none, some, if◌then◌else◌, ◌==◌, ltb, ℤ,
  pos, negsuc, ◌+ℤ◌, ◌-ℤ◌, ltb_ℤ, leb_ℤ, eqb_ℤ, is_neg,
}
use so2_joan_erik.Links.{Links, init_list_head, list_add_tail, list_del, list_empty, list_first}
use so2_joan_erik.Task.{
  num_sems, blocked, readyqueue, blocked_threads_of, sem_list_of, list_head_to_task_struct,
}
use so2_joan_erik.Kernel.{
  Semaphore, Kernel, Run, done, switched, out_of_fuel, Call, pure, ◌>>=◌, ◌>>◌, get, modify,
  modify_sched, modify_links, move_to, yield,
}

abbrev pub einval : ℤ
einval = negsuc 21

-- The first identifier of a user's semaphore.
abbrev pub first_user_id : ℤ
first_user_id = pos 100000

abbrev pub minus_one : ℤ
minus_one = negsuc 0

abbrev pub set_sem : Kernel → ℕ → Semaphore → Kernel
set_sem k i v = record k { semaphores = λ j. if j == i then v else k.semaphores j }

-- sys_getpid
unfoldable pub sys_get_pid : Kernel → ℤ
sys_get_pid k = (k.sched.tasks k.sched.current).pid

-- What sys_semCreate_extended does with the free entry `i`.
unfoldable pub sem_init : ℤ → Bool → ℕ → Kernel → ℤ × Kernel
sem_init initial_value user_mode i k =
    let fresh = if user_mode then k.sem_id_global else k.sem_id_system in
    let k' = set_sem k i (record {
      id = fresh;
      value = initial_value;
      free = false;
      creator_pid = (k.sched.tasks k.sched.current).pid;
    }) in
    let s = k.sched in
    let k'' = record k' {
      sched = record s { links = init_list_head s.links (blocked_threads_of i) };
    } in
    (
      fresh,
      if user_mode
          then record k'' { sem_id_global = fresh +ℤ pos 1 }
          else record k'' { sem_id_system = fresh +ℤ pos 1 },
    )

unfoldable pub create_loop : ℕ → ℤ → Bool → ℕ → Kernel → ℤ × Kernel
create_loop zero initial_value user_mode i k = (minus_one, k)
create_loop (suc n) initial_value user_mode i k =
    let rest = create_loop n initial_value user_mode (i + 1) k in
    if (k.semaphores i).free then sem_init initial_value user_mode i k else rest

unfoldable pub sys_sem_create_extended : ℤ → Bool → Kernel → ℤ × Kernel
sys_sem_create_extended initial_value user_mode k = create_loop num_sems initial_value user_mode 0 k

unfoldable pub sys_sem_create : ℤ → Kernel → ℤ × Kernel
sys_sem_create initial_value k = sys_sem_create_extended initial_value true k

-- The loops of wait and signal: the first entry with the identifier.
unfoldable pub find_sem : ℕ → ℤ → ℕ → Kernel → Option ℕ
find_sem zero semid i k = none
find_sem (suc n) semid i k =
    let rest = find_sem n semid (i + 1) k in
    if eqb_ℤ (k.semaphores i).id semid then some i else rest

-- The identifier is on the wrong side of 100000.
abbrev pub wrong_side : ℤ → Bool → Bool
wrong_side semid true = ltb_ℤ semid first_user_id
wrong_side semid false = leb_ℤ first_user_id semid

-- The calling thread joins the queue of the semaphore and blocks.
unfoldable pub wait_blocked : ℕ → Call (Unit {0})
wait_blocked i = do
  k ← get
  modify_links λ m. list_add_tail m (sem_list_of k.sched.current) (blocked_threads_of i)
  move_to k.sched.current blocked
  yield

-- sys_semWait_extended on the entry `i`, which holds `sem`.
unfoldable pub wait_live : ℕ → Semaphore → Call ℤ
unfolding wait_blocked
wait_live i sem = do
  modify λ k. set_sem k i (record sem { value = sem.value -ℤ pos 1 })
  if is_neg (sem.value -ℤ pos 1) then wait_blocked i else pure tt
  k' ← get
  pure (k'.semaphores i).creator_pid

unfoldable pub wait_on : ℕ → Call ℤ
unfolding wait_live
wait_on i k = if (k.semaphores i).free then done einval k else wait_live i (k.semaphores i) k

abbrev pub at_found : ℤ → (ℕ → Call ℤ) → Option ℕ → Call ℤ
at_found missing act none = pure missing
at_found missing act (some i) = act i

unfoldable pub sys_sem_wait_extended : ℤ → Bool → Call ℤ
sys_sem_wait_extended semid user_mode k =
    if wrong_side semid user_mode
    then done einval k
    else at_found minus_one wait_on (find_sem num_sems semid 0 k) k

unfoldable pub sys_sem_wait : ℤ → Call ℤ
sys_sem_wait semid = sys_sem_wait_extended semid true

-- The oldest waiter leaves the queue of the semaphore and becomes ready.
unfoldable pub wake_first : ℕ → Call (Unit {0})
wake_first i = do
  k ← get
  let e = list_first k.sched.links (blocked_threads_of i)
  modify_links λ m. list_del m e
  move_to (list_head_to_task_struct e) readyqueue

-- sys_semSignal_extended on the entry `i`, which holds `sem`.
unfoldable pub signal_live : ℕ → Semaphore → Call ℤ
signal_live i sem = do
  modify λ k. set_sem k i (record sem { value = sem.value +ℤ pos 1 })
  if leb_ℤ (sem.value +ℤ pos 1) (pos 0) then wake_first i >> yield else pure tt
  k' ← get
  pure (k'.semaphores i).value

unfoldable pub signal_on : ℕ → Call ℤ
unfolding signal_live
signal_on i k = if (k.semaphores i).free then done einval k else signal_live i (k.semaphores i) k

unfoldable pub sys_sem_signal_extended : ℤ → Bool → Call ℤ
sys_sem_signal_extended semid user_mode k =
    if wrong_side semid user_mode
    then done minus_one k
    else at_found minus_one signal_on (find_sem num_sems semid 0 k) k

unfoldable pub sys_sem_signal : ℤ → Call ℤ
sys_sem_signal semid = sys_sem_signal_extended semid true

-- The inner loop of sys_semDestroy_extended. Each round may give the CPU away, and the tasks that
-- run meanwhile may wait on the semaphore again, so the number of rounds is not bounded: fuel.
unfoldable pub drain : ℕ → ℕ → Call (Unit {0})
drain zero i k = out_of_fuel
drain (suc f) i k =
    if list_empty k.sched.links (blocked_threads_of i)
    then done tt k
    else (do
      modify
          λ k'. let sem = k'.semaphores i in set_sem k' i (record sem { creator_pid = minus_one })
      wake_first i
      yield
      drain f i)
        k

-- The body of the loop at an entry with the identifier: an early return, or the waiters are woken,
-- the entry is freed, and the loop goes on with `rest`.
unfoldable pub destroy_on : ℕ → ℕ → Call ℤ → Call ℤ
destroy_on f i rest k =
    if (k.semaphores i).free
    then done einval k
    else if not (eqb_ℤ (sys_get_pid k) (k.semaphores i).creator_pid)
    then done einval k
    else (do
      drain f i
      modify λ k'. let sem' = k'.semaphores i in set_sem k' i (record sem' { free = true })
      rest)
        k

unfoldable pub destroy_loop : ℕ → ℕ → ℤ → ℕ → Call ℤ
destroy_loop f zero semid i k = done minus_one k
destroy_loop f (suc n) semid i k =
    let rest = destroy_loop f n semid (i + 1) in
    if eqb_ℤ (k.semaphores i).id semid then destroy_on f i rest k else rest k

unfoldable pub sys_sem_destroy_extended : ℕ → ℤ → Bool → Call ℤ
sys_sem_destroy_extended fuel semid user_mode k =
    if user_mode && ltb_ℤ semid first_user_id
    then done einval k
    else destroy_loop fuel num_sems semid 0 k

unfoldable pub sys_sem_destroy : ℕ → ℤ → Call ℤ
sys_sem_destroy fuel semid = sys_sem_destroy_extended fuel semid true
