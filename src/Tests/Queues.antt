-- ===== src/Tests/Queues.antt =====
-- A scheduler with three tasks, and the theorems on queues, blocking and semaphores on it.
use so2_joan_erik.Common.{
  ℕ, ◌+◌, ◌≡◌, refl, ◌≢◌, true, [], ◌∷◌, arith, ◌==◌, if◌then◌else◌, pos, negsuc, ◌<ℤ◌,
}
use so2_joan_erik.Links.{Links, init_list_head, list_add_tail}
use so2_joan_erik.Links.Ring.{Ring}
use so2_joan_erik.Task.{st_run, Task, IsSlot, sem_list_of, blocked, blocked_threads_of, readyqueue}
use so2_joan_erik.Sched.{
  Sched, set_links, place, unlink, state_for, update_process_state_rr, sched_next_rr,
}
use so2_joan_erik.Sched.Queues.{
  Queue, q_free, q_ready, q_blocked, q_read_blocked, Contents, take, enqueue, head_of,
}
use so2_joan_erik.Sched.Invariant.{Inv}
use so2_joan_erik.Semaphore.Waiting.{Waiting, Waiting-same, join-Waiting, join_same}
use so2_joan_erik.Sched.Spared.{Inv-elsewhere, update_process-spared}
use so2_joan_erik.Kernel.{Kernel, done}
use so2_joan_erik.Semaphore.{
  set_sem, sys_get_pid, find_sem, minus_one, sys_sem_create_extended, sys_sem_destroy_extended,
}
use so2_joan_erik.Semaphore.Wait.{Caller, Waits, sys_sem_wait-Waits}
use so2_joan_erik.Semaphore.Signal.{Waker, Signals, sys_sem_signal-Signals}
use so2_joan_erik.Semaphore.Create.{Created, sys_sem_create-Created}
use so2_joan_erik.Semaphore.Destroy.{Always, sys_sem_destroy-neg, sys_sem_destroy-frees}
use so2_joan_erik.Process.{sys_block}
use so2_joan_erik.Process.Fair.{clock_ticks, ticks_of, HasTurn, clock_ticks-HasTurn}
use so2_joan_erik.Sched.Cycle.{Cycling}
use so2_joan_erik.Process.Block.{Blocks, sys_block-Blocks}
use so2_joan_erik.Sched.Moves.{update_process-Inv}
use so2_joan_erik.Sched.RoundRobin.{Runs, Scheduled}
use so2_joan_erik.Sched.Registers.{Loaded, sched_next_rr-Loaded}

abbrev pub idle_at : ℕ
idle_at = 65536

abbrev pub first_at : ℕ
first_at = 69632

abbrev pub second_at : ℕ
second_at = 73728

abbrev pub third_at : ℕ
third_at = 77824

abbrev pub empty_links : Links
empty_links =
    let zeros : Links = record { next = λ a. 0; prev = λ a. 0 } in
    init_list_head
      (init_list_head (init_list_head (init_list_head (init_list_head zeros 16) 24) 32) 40) 1024

abbrev task_at : ℕ → Task
task_at t = record {
  pid =
      if t == idle_at
      then pos 0
      else if t == first_at
      then pos 1
      else if t == second_at
      then pos 2
      else if t == third_at
      then pos 3
      else negsuc 0;
  dir_pages_base_addr = if t == second_at then 8192 else 4096;
  k_esp = 0;
  quantum = pos 10;
  pending_unblocks = pos 0;
  my_heap = 0;
  pare = 0;
  current_state = st_run;
  stack = λ i. 0;
}

-- The first process runs; no task is in a queue.
abbrev pub alone : Sched
alone = record {
  links = empty_links;
  tasks = task_at;
  current = first_at;
  idle_task = idle_at;
  task1 = first_at;
  tick_counter = pos 1;
  tss_esp0 = first_at + 4096;
  msr_esp = first_at + 4096;
  cr3 = 4096;
}

abbrev pub no_tasks : Contents
no_tasks k = []

pub self-Ring : (m : Links) (h : ℕ) → m.next h ≡ h → m.prev h ≡ h → h ≢ 0 → Ring m h []
self-Ring m h n p ne = record {
  forward = ground (arith, n);
  backward = ground (arith, p);
  distinct = ground arith;
  not_null = ground (arith, ne);
}

empty-Ring : (k : Queue) → Ring empty_links (head_of k) []
unfolding init_list_head
empty-Ring q_free = self-Ring empty_links 24 refl refl (omega arith)
empty-Ring q_ready = self-Ring empty_links 16 refl refl (omega arith)
empty-Ring q_blocked = self-Ring empty_links 32 refl refl (omega arith)
empty-Ring q_read_blocked = self-Ring empty_links 40 refl refl (omega arith)

no_waiters : Waiting empty_links 0 []
unfolding init_list_head
no_waiters = record {
  ring = self-Ring empty_links 1024 refl refl (omega arith);
  slots = λ t h. ground (arith, h);
  index = omega arith;
}

pub first-IsSlot : IsSlot first_at
first-IsSlot = record { aligned = refl; above = omega arith; below = omega arith }

pub second-IsSlot : IsSlot second_at
second-IsSlot = record { aligned = refl; above = omega arith; below = omega arith }

pub alone-Inv : Inv alone no_tasks
alone-Inv = record {
  holds = record {
    rings = empty-Ring;
    slots = λ k t h. ground (arith, h);
    apart = λ j k t h. ground (arith, h);
  };
  tagged = λ k t h. ground (arith, h);
  listed = λ t slot p. tt;
  idle_slot = record { aligned = refl; above = omega arith; below = omega arith };
  idle_pid = refl;
  idle_unlisted = λ k. refl;
}

-- The second process ready.
abbrev pub two : Sched
two = update_process_state_rr alone second_at readyqueue

abbrev pub one_ready : Contents
one_ready = enqueue (take no_tasks second_at) q_ready second_at

two-Inv : Inv two one_ready
two-Inv = update_process-Inv alone-Inv second_at second-IsSlot q_ready refl (λ r k. refl)

two-Runs : Runs two one_ready
unfolding update_process_state_rr place unlink state_for init_list_head list_add_tail
two-Runs = record {
  slot = first-IsSlot;
  unlisted = λ h k. ground arith;
  live = λ h. refl;
  idle = λ h. ground (arith, h);
  unique = λ t h e. ground (arith, h, e);
}

two-Waiting : Waiting two.links 0 []
two-Waiting =
    Waiting-same no_waiters two.links
      λ a e. update_process-spared alone-Inv second_at second-IsSlot refl (λ r k. refl) a e q_ready

-- The third process ready too.
abbrev three : Sched
three = update_process_state_rr two third_at readyqueue

abbrev two_ready : Contents
two_ready = enqueue (take one_ready third_at) q_ready third_at

three-Cycling : Cycling three two_ready
unfolding update_process_state_rr place unlink state_for init_list_head list_add_tail
three-Cycling = record {
  inv =
      update_process-Inv two-Inv third_at
        (record { aligned = refl; above = omega arith; below = omega arith }) q_ready refl
        (λ r k. ground arith);
  slot = first-IsSlot;
  running = refl;
  process = refl;
  unlisted = λ k. ground arith;
  unique = λ t u ht hu e. ground (arith, ht, hu, e);
}

-- The second process in the queue of semaphore 0, and blocked.
abbrev pub queued : Sched
queued = set_links alone (list_add_tail empty_links (sem_list_of second_at) (blocked_threads_of 0))

abbrev pub asleep : Sched
asleep = update_process_state_rr queued second_at blocked

abbrev pub one_blocked : Contents
one_blocked = enqueue (take no_tasks second_at) q_blocked second_at

queued-Inv : Inv queued no_tasks
queued-Inv = Inv-elsewhere _ alone-Inv (join_same no_waiters second_at second-IsSlot refl)

asleep-Inv : Inv asleep one_blocked
asleep-Inv = update_process-Inv queued-Inv second_at second-IsSlot q_blocked refl (λ r k. refl)

asleep-Waiting : Waiting asleep.links 0 (second_at ∷ [])
asleep-Waiting =
    Waiting-same (join-Waiting no_waiters second_at second-IsSlot refl) asleep.links λ a e.
      update_process-spared queued-Inv second_at second-IsSlot refl (λ r k. refl) a e q_blocked

asleep-Runs : Runs asleep one_blocked
unfolding update_process_state_rr place unlink state_for init_list_head list_add_tail
asleep-Runs = record {
  slot = first-IsSlot;
  unlisted = λ h k. ground arith;
  live = λ h. refl;
  idle = λ h. ground (arith, h);
  unique = λ t h e. ground (arith, h, e);
}

abbrev kernel_of : Sched → Kernel
kernel_of s = record {
  sched = s;
  semaphores = λ i. record {
    id = pos (100000 + i);
    value = if i == 0 then negsuc 0 else pos 0;
    free = i == 7;
    creator_pid = pos 1;
  };
  pid_global = pos 3;
  sem_id_global = pos 100200;
  sem_id_system = pos 0;
  keys = record { buffer = λ i. 0; head = 0; tail = 0 };
  screen = record { x = 0; y = 0; foreground = 2; background = 0; cells = λ i. 0 };
  zeos_tick = pos 0;
}

two-Caller : Caller two one_ready []
unfolding update_process_state_rr place unlink state_for
two-Caller = record { inv = two-Inv; runs = two-Runs; running = refl; process = refl; fresh = refl }

asleep-Waker : Waker asleep one_blocked second_at
unfolding update_process_state_rr place unlink state_for
asleep-Waker = record {
  inv = asleep-Inv;
  runs = asleep-Runs;
  running = refl;
  sleeps = refl;
  other_pid = λ e. ground (arith, e);
}

update_process-Inv_example : Inv two one_ready
update_process-Inv_example =
    update_process-Inv alone-Inv second_at second-IsSlot q_ready refl (λ r k. refl)

two-Loaded : Loaded two
unfolding update_process_state_rr place unlink state_for
two-Loaded = record { directory = refl; interrupts = refl; sysenter = refl }

sched_next_rr-Loaded_example :
    Scheduled two (sched_next_rr two) one_ready × Loaded (sched_next_rr two)
sched_next_rr-Loaded_example = sched_next_rr-Loaded two-Inv two-Runs two-Loaded

sys_sem_wait-Waits_example : Waits (kernel_of two) (pos 100000) true one_ready 0 []
unfolding find_sem
sys_sem_wait-Waits_example =
    sys_sem_wait-Waits (pos 100000) true 0 refl refl refl refl two-Caller two-Waiting

sys_sem_signal-Signals_example :
    Signals (kernel_of asleep) (pos 100000) true one_blocked 0 second_at []
unfolding find_sem
sys_sem_signal-Signals_example =
    sys_sem_signal-Signals (pos 100000) true 0 refl refl refl refl asleep-Waker asleep-Waiting

sys_sem_create-Created_example :
    Created (kernel_of two) (pos 4) true 7 (sys_sem_create_extended (pos 4) true (kernel_of two))
sys_sem_create-Created_example =
    sys_sem_create-Created (kernel_of two) (pos 4) true 7
      (record { index = omega arith; is_free = refl; before = λ i h. ground (arith, h) })
      (λ l h e. ground (arith, h, e))

sys_sem_destroy-frees_example :
    sys_sem_destroy_extended 5 (pos 100000) true (kernel_of two)
    ≡ done minus_one (
        set_sem
          (kernel_of two)
          0
          (record { id = pos 100000; value = negsuc 0; free = true; creator_pid = pos 1 }))
unfolding sys_get_pid update_process_state_rr place unlink state_for
sys_sem_destroy-frees_example =
    sys_sem_destroy-frees 4 0 true (kernel_of two) refl (λ l ne e. ground (arith, ne, e)) refl refl
      two-Waiting

sys_sem_destroy-neg_example :
    Always (λ a. a <ℤ pos 0) (sys_sem_destroy_extended 5 (pos 100000) true (kernel_of asleep))
sys_sem_destroy-neg_example = sys_sem_destroy-neg 5 (pos 100000) true (kernel_of asleep)

sys_block-Blocks_example : Blocks (kernel_of two) one_ready (sys_block (kernel_of two))
unfolding update_process_state_rr place unlink state_for
sys_block-Blocks_example = sys_block-Blocks two-Inv two-Runs refl refl refl

clock_ticks-HasTurn_example :
    HasTurn first_at
      (clock_ticks (λ s. s) (1 + ticks_of (λ x. 9) (second_at ∷ [])) (kernel_of three))
      (second_at ∷ [])
      third_at
      []
unfolding update_process_state_rr place unlink state_for
clock_ticks-HasTurn_example =
    clock_ticks-HasTurn (λ s. s) 0 (λ x. 9) (second_at ∷ []) third_at [] (kernel_of three) two_ready
      three-Cycling refl refl (λ x h. ground (arith, h))
