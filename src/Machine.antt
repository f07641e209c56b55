-- ===== src/Machine.antt =====
-- The kernel together with its memory: the page directories, the page tables and the frames.
use so2_joan_erik.Common.{ℕ, ◌+◌, ◌*◌, ◌/◌, ◌%◌, ◌==◌, if◌then◌else◌}
use so2_joan_erik.UserMem.{Mem, store}
use so2_joan_erik.Task.{Task}
use so2_joan_erik.Sched.{Sched, update_task}
use so2_joan_erik.Kernel.{Kernel}
use so2_joan_erik.Memory.{PhysMem, Entry, PageTable}
use so2_joan_erik.Directories.{Directories}

-- A directory is known by its address, and has only entry 0 (ENTRY_DIR_PAGES) in use; a page table
-- is known by its address too. `ram` holds the bytes of the frames that the page tables give to the
-- user; what the kernel keeps in its own frames is in the other fields.
pub record Machine : Type 0 where
  pub kernel : Kernel
  pub dirs : Directories
  pub phys_mem : PhysMem
  pub dir_entries : ℕ → Entry
  pub page_tables : ℕ → PageTable
  pub ram : Mem

abbrev pub sched_of : Machine → Sched
sched_of m = m.kernel.sched

abbrev pub with_sched : Machine → Sched → Machine
with_sched m s = let k = m.kernel in record m { kernel = record k { sched = s } }

-- A store to the fields of the task at `t` that are not list heads.
abbrev pub set_task : Machine → ℕ → Task → Machine
set_task m t v =
    let s = m.kernel.sched in with_sched m (record s { tasks = update_task s.tasks t v })

abbrev pub set_table : Machine → ℕ → PageTable → Machine
set_table m pt v = record m { page_tables = λ a. if a == pt then v else m.page_tables a }

-- get_DIR
unfoldable pub get_dir : Machine → ℕ → ℕ
get_dir m t = (m.kernel.sched.tasks t).dir_pages_base_addr

-- get_PT: `pbase_addr << 12`
unfoldable pub get_pt : Machine → ℕ → ℕ
get_pt m t = (m.dir_entries (m.kernel.sched.tasks t).dir_pages_base_addr).pbase_addr * 4096

-- Where the MMU finds the byte at a user's address, by the page table of the running task.
unfoldable pub physical : Machine → ℕ → ℕ
unfolding get_pt
physical m v =
    (m.page_tables (get_pt m m.kernel.sched.current) (v / 4096)).pbase_addr * 4096 + v % 4096

-- `*(Byte *)v = x`, for a user's address.
unfoldable pub store_byte : Machine → ℕ → ℕ → Machine
unfolding physical
store_byte m v x = record m { ram = store m.ram (physical m v) (x % 256) }

-- `*(unsigned long *)v = x`: the low byte comes first.
unfoldable pub store_long : Machine → ℕ → ℕ → Machine
unfolding store_byte
store_long m v x =
    store_byte (store_byte (store_byte (store_byte m v x) (v + 1) (x / 256)) (v + 2) (x / 65536))
      (v + 3) (x / 16777216)
