-- ===== src/Task.antt =====
-- Process descriptors and where they lie: include/sched.h and the address arithmetic of sched.c.
--
-- The linker puts the array `task` at page boundaries and the global list heads elsewhere. Any such
-- places will do; the ones taken here are numbers, so that the mask of `list_head_to_task_struct`
-- computes. Field offsets are those of `struct task_struct` with 4-byte pointers.
pub mod Count
use so2_joan_erik.Common.{ℕ, ◌+◌, ◌*◌, ◌/◌, ◌≤◌, ◌<◌, ◌≡◌, ◌%◌, Bool, true, false, ℤ}

-- enum state_t
pub data State : Type 0 where
  st_run st_free st_ready st_blocked st_readblocked : State

abbrev pub is_run : State → Bool
is_run st_run = true
is_run _ = false

abbrev pub is_blocked : State → Bool
is_blocked st_blocked = true
is_blocked _ = false

-- struct task_struct and the kernel stack that shares its page. The list heads of the struct live in
-- `Links`. `dir_pages_base_addr` is the directory's address, `my_heap` and `pare` are pointers.
pub record Task : Type 0 where
  pub pid : ℤ
  pub dir_pages_base_addr : ℕ
  pub k_esp : ℕ
  pub quantum : ℤ
  pub pending_unblocks : ℤ
  pub my_heap : ℕ
  pub pare : ℕ
  pub current_state : State
  pub stack : ℕ → ℕ

abbrev pub nr_tasks : ℕ
nr_tasks = 10

abbrev pub num_sems : ℕ
num_sems = 100

abbrev pub kernel_stack_size : ℕ
kernel_stack_size = 1024

abbrev pub default_quantum_ticks : ℕ
default_quantum_ticks = 10

-- &task[i]
abbrev pub task_base : ℕ
task_base = 0x10000

abbrev pub task_addr : ℕ → ℕ
task_addr i = task_base + 4096 * i

-- The fields of type `struct list_head` of the task at `t`.
abbrev pub list_of : ℕ → ℕ
list_of t = t + 8

abbrev pub fills_of : ℕ → ℕ
fills_of t = t + 32

abbrev pub parent_anchor_of : ℕ → ℕ
parent_anchor_of t = t + 40

abbrev pub wait_list_of : ℕ → ℕ
wait_list_of t = t + 48

abbrev pub wait_anchor_of : ℕ → ℕ
wait_anchor_of t = t + 56

abbrev pub sem_list_of : ℕ → ℕ
sem_list_of t = t + 64

-- The global list heads.
abbrev pub readyqueue : ℕ
readyqueue = 16

abbrev pub freequeue : ℕ
freequeue = 24

abbrev pub blocked : ℕ
blocked = 32

abbrev pub read_blocked : ℕ
read_blocked = 40

-- &semaphores[i].blockedThreads
abbrev pub blocked_threads_of : ℕ → ℕ
blocked_threads_of i = 1024 + 24 * i

-- The address of an element of `task`.
pub record IsSlot (t : ℕ) : Type 0 where
  pub aligned : t % 4096 ≡ 0
  pub above : task_base ≤ t
  pub below : t < task_base + 4096 * nr_tasks

-- `l & 0xfffff000`
unfoldable pub list_head_to_task_struct : ℕ → ℕ
list_head_to_task_struct l = l / 4096 * 4096
