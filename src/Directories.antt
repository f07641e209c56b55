-- ===== src/Directories.antt =====
-- The page directories of sched.c: how many tasks use each, and their heaps.
--
-- The linker's places for `dir_pages` and `heap_zones` are numbers. A directory is known by its
-- address, which lies in `dir_pages`.
pub mod References
pub mod Tasks
use so2_joan_erik.Common.{
  ℕ, zero, suc, ◌+◌, ◌-◌, ◌*◌, ◌/◌, ◌%◌, ◌^◌, ◌==◌, if◌then◌else◌, Option, none, some, ℤ, pos,
  negsuc, ◌+ℤ◌, ◌-ℤ◌, leb_ℤ,
}
use so2_joan_erik.Task.{Task, nr_tasks}

pub record Directories : Type 0 where
  pub dir_pages_num_references : ℕ → ℤ
  pub heap_zones : ℕ → ℤ

abbrev pub dir_pages : ℕ
dir_pages = 0x20000

abbrev pub heap_zones_base : ℕ
heap_zones_base = 0x30000

abbrev pub enomem : ℤ
enomem = negsuc 11

-- The index of a task's directory: `((int)t->dir_pages_baseAddr - (int)dir_pages) / 4096`. The size
-- is unsigned, so the difference is taken modulo 2 ^ 32 and the index is not negative.
abbrev pub dir_index : Task → ℕ
dir_index t = (t.dir_pages_base_addr + 2 ^ 32 - dir_pages) % 2 ^ 32 / 4096

abbrev pub set_at : (ℕ → ℤ) → ℕ → ℤ → ℕ → ℤ
set_at f i v j = if j == i then v else f j

unfoldable pub sub_dir_ref : Directories → Task → ℤ × Directories
sub_dir_ref d t =
    let left = d.dir_pages_num_references (dir_index t) -ℤ pos 1 in
    (
      left,
      record d { dir_pages_num_references = set_at d.dir_pages_num_references (dir_index t) left },
    )

unfoldable pub add_dir_ref : Directories → Task → ℤ × Directories
add_dir_ref d t =
    let more = d.dir_pages_num_references (dir_index t) +ℤ pos 1 in
    (
      pos 1,
      record d { dir_pages_num_references = set_at d.dir_pages_num_references (dir_index t) more },
    )

-- The loop of allocate_DIR: the first directory without references.
unfoldable pub find_dir : ℕ → ℕ → Directories → Option ℕ
find_dir zero i d = none
find_dir (suc n) i d =
    let rest = find_dir n (i + 1) d in
    if leb_ℤ (d.dir_pages_num_references i) (pos 0) then some i else rest

abbrev pub take_dir : Option ℕ → Directories → Task → ℤ × Directories × Task
take_dir none d t = (enomem, d, t)
take_dir (some i) d t = (
  pos 1,
  record d {
    dir_pages_num_references =
        set_at d.dir_pages_num_references i (d.dir_pages_num_references i +ℤ pos 1);
  },
  record t { dir_pages_base_addr = dir_pages + 4096 * i },
)

unfoldable pub allocate_dir : Directories → Task → ℤ × Directories × Task
allocate_dir d t = take_dir (find_dir nr_tasks 0 d) d t

-- The index is not negative, so the code's test for a negative one never holds.
unfoldable pub allocate_heap : Directories → Task → ℤ × Directories × Task
allocate_heap d t = (
  pos 1,
  record d { heap_zones = set_at d.heap_zones (dir_index t) (pos 0) },
  record t { my_heap = heap_zones_base + 4 * dir_index t },
)
