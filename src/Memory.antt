-- ===== src/Memory.antt =====
-- Frames and page tables: mm.c.
--
-- `phys_mem` is a function from frames to marks. A page table is known by its address and is a
-- function from logical pages to entries.
pub mod Frames
pub mod Tables
use so2_joan_erik.Common.{
  ℕ, zero, suc, ◌+◌, ◌-◌, ◌*◌, ◌/◌, ◌%◌, ◌^◌, Bool, true, false, ◌&&◌, ltb, leb, ◌==◌,
  if◌then◌else◌, ℤ, pos, negsuc, ◌+ℤ◌, ◌-ℤ◌, leb_ℤ, is_pos,
}

abbrev pub total_pages : ℕ
total_pages = 1024

abbrev pub num_pag_kernel : ℕ
num_pag_kernel = 256

abbrev pub free_mark : ℕ
free_mark = 0

abbrev pub used_mark : ℕ
used_mark = 1

abbrev pub PhysMem : Type 0
PhysMem = ℕ → ℕ

abbrev pub mark : PhysMem → ℕ → ℕ → PhysMem
mark m frame v i = if i == frame then v else m i

-- `n` frames from `i` on get the mark `v`.
unfoldable pub mark_from : ℕ → ℕ → ℕ → PhysMem → PhysMem
mark_from zero i v m = m
mark_from (suc n) i v m = mark_from n (i + 1) v (mark m i v)

unfoldable pub init_frames : PhysMem → PhysMem
init_frames m = mark_from num_pag_kernel 0 used_mark (mark_from total_pages 0 free_mark m)

-- The loop of alloc_frame with fuel: frames `i`, `i + 2`, ….
unfoldable pub alloc_loop : ℕ → ℕ → PhysMem → ℤ × PhysMem
alloc_loop zero i m = (negsuc 0, m)
alloc_loop (suc f) i m =
    let rest = alloc_loop f (i + 2) m in
    if ltb i total_pages
    then if m i == free_mark then (pos i, mark m i used_mark) else rest
    else (negsuc 0, m)

-- 385 rounds are enough: the fuel runs out at frame 1026.
unfoldable pub alloc_frame : PhysMem → ℤ × PhysMem
alloc_frame m = alloc_loop 385 num_pag_kernel m

unfoldable pub free_frame : PhysMem → ℕ → PhysMem
free_frame m frame =
    if ltb num_pag_kernel frame && ltb frame total_pages then mark m frame free_mark else m

-- page_table_entry: the bits that the kernel sets, the other low bits together, and the frame.
pub record Entry : Type 0 where
  pub present : Bool
  pub rw_bit : Bool
  pub user : Bool
  pub other : ℕ
  pub pbase_addr : ℕ

-- `entry = 0`
abbrev pub empty_entry : Entry
empty_entry = record { present = false; rw_bit = false; user = false; other = 0; pbase_addr = 0 }

abbrev pub PageTable : Type 0
PageTable = ℕ → Entry

abbrev pub set_entry : PageTable → ℕ → Entry → PageTable
set_entry pt page e i = if i == page then e else pt i

unfoldable pub set_ss_pag : PageTable → ℕ → ℕ → PageTable
set_ss_pag pt page frame =
    set_entry pt page (record {
      present = true;
      rw_bit = true;
      user = true;
      other = 0;
      pbase_addr = frame % 2 ^ 20;
    })

unfoldable pub del_ss_pag : PageTable → ℕ → PageTable
del_ss_pag pt logical_page = set_entry pt logical_page empty_entry

unfoldable pub get_frame : PageTable → ℕ → ℕ
get_frame pt logical_page = (pt logical_page).pbase_addr
