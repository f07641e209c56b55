-- ===== src/Paging.antt =====
-- The page tables that mm.c builds.
--
-- An entry is written field by field; the 20 bits of `pbase_addr` hold the frame modulo 2 ^ 20, -1
-- included.
use so2_joan_erik.Common.{
  ℕ, ◌+◌, ◌-◌, ◌*◌, ◌/◌, ◌%◌, ◌^◌, Bool, true, false, ◌==◌, if◌then◌else◌, for_up, ℤ, pos, negsuc,
}
use so2_joan_erik.Task.{nr_tasks, task_addr}
use so2_joan_erik.Memory.{
  Entry, PageTable, empty_entry, set_entry, total_pages, num_pag_kernel, init_frames, alloc_frame,
  free_frame, get_frame,
}
use so2_joan_erik.Directories.{dir_pages, set_at, allocate_dir}
use so2_joan_erik.Machine.{Machine, set_task, set_table, get_dir, get_pt}

-- &pagusr_table[i]
abbrev pub pagusr_table : ℕ → ℕ
pagusr_table i = 0x50000 + 4096 * i

-- &dir_pages[i]
abbrev pub dir_addr : ℕ → ℕ
dir_addr i = dir_pages + 4096 * i

abbrev pub num_pag_data : ℕ
num_pag_data = 20

abbrev pub num_pag_code : ℕ
num_pag_code = 8

abbrev pub pag_log_init_data : ℕ
pag_log_init_data = 256

abbrev pub pag_log_init_code : ℕ
pag_log_init_code = pag_log_init_data + num_pag_data

abbrev pub pag_log_init_heap : ℕ
pag_log_init_heap = pag_log_init_code + num_pag_code

-- The value of a 20-bit field after a store of an `int`.
abbrev pub bits20 : ℤ → ℕ
bits20 (pos n) = n % 2 ^ 20
bits20 (negsuc n) = 2 ^ 20 - 1 - n % 2 ^ 20

-- `entry = 0`, then the fields named.
abbrev pub new_entry : ℕ → Bool → Bool → Entry
new_entry frame rw user = record {
  present = true;
  rw_bit = rw;
  user = user;
  other = 0;
  pbase_addr = frame;
}

-- A round of init_dir_pages.
unfoldable pub init_dir_page : ℕ → Machine → Machine
init_dir_page i m =
    let d = m.dirs in
    record m {
      dir_entries = λ a.
          if a == dir_addr i
          then new_entry (pagusr_table i / 4096 % 2 ^ 20) true true
          else m.dir_entries a;
      dirs = record d { dir_pages_num_references = set_at d.dir_pages_num_references i (pos 0) };
    }

unfoldable pub init_dir_pages : Machine → Machine
init_dir_pages = for_up nr_tasks 0 init_dir_page

-- The loops of init_table_pages over one table.
unfoldable pub clear_table : PageTable → PageTable
clear_table = for_up total_pages 0 λ i pt. set_entry pt i empty_entry

-- `bits.pbase_addr = i; bits.rw = 1; bits.present = 1;`
unfoldable pub map_kernel : PageTable → PageTable
map_kernel = for_up (num_pag_kernel - 1) 1 λ i pt.
    let e = pt i in
    set_entry pt i (record e { pbase_addr = i % 2 ^ 20; rw_bit = true; present = true })

unfoldable pub init_table_pages : Machine → Machine
init_table_pages =
    for_up nr_tasks 0 λ j m.
      set_table m (pagusr_table j) (map_kernel (clear_table (m.page_tables (pagusr_table j))))

-- A round of one of the loops of set_user_pages, for the page `first + pag` of the table at `pt`.
unfoldable pub give_page : ℕ → ℕ → Bool → ℕ → Machine → Machine
give_page pt first rw pag m =
    let r = alloc_frame m.phys_mem in
    let m' = record m { phys_mem = r.1 } in
    set_table m' pt (set_entry (m.page_tables pt) (first + pag) (new_entry (bits20 r.0) rw true))

unfoldable pub set_user_pages : Machine → ℕ → Machine
set_user_pages m t =
    let process_pt = get_pt m t in
    for_up num_pag_data 0 (give_page process_pt pag_log_init_data true)
      (for_up num_pag_code 0 (give_page process_pt pag_log_init_code false) m)

-- A round of free_user_pages.
unfoldable pub take_page : ℕ → ℕ → Machine → Machine
take_page pt pag m =
    let table = m.page_tables pt in
    let m' = record m {
      phys_mem = free_frame m.phys_mem (get_frame table (pag_log_init_data + pag));
    } in
    set_table m' pt (set_entry table (pag_log_init_data + pag) empty_entry)

unfoldable pub free_user_pages : Machine → ℕ → Machine
free_user_pages m t = for_up num_pag_data 0 (take_page (get_pt m t)) m

-- `allocate_DIR(t)`, as a statement.
unfoldable pub give_dir : ℕ → Machine → Machine
give_dir t m =
    let r = allocate_dir m.dirs (m.kernel.sched.tasks t) in
    let m' = record m { dirs = r.1 } in set_task m' t r.2

-- init_mm, but for the flag in CR0 that turns paging on.
unfoldable pub init_mm : Machine → Machine
init_mm m =
    let tables = init_table_pages m in
    let frames = record tables { phys_mem = init_frames tables.phys_mem } in
    let given = give_dir (task_addr 0) (init_dir_pages frames) in
    let k = given.kernel in
    let s = given.kernel.sched in
    record given { kernel = record k { sched = record s { cr3 = get_dir given (task_addr 0) } } }
