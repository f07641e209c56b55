-- ===== src/DynMem.antt =====
-- sys_dyn_mem of sys.c: the heap of the running process grows and shrinks by pages.
--
-- A pointer that carries an error number is that negative number here.
pub mod Mapped
pub mod Grow
pub mod Shrink
use so2_joan_erik.Common.{
  ℕ, zero, suc, ◌+◌, ◌-◌, ◌*◌, ◌/◌, ◌==◌, Bool, true, false, if◌then◌else◌, for_up, ltb, List, [],
  ◌∷◌, ◌++◌, ℤ, pos, negsuc, ◌+ℤ◌, is_neg, pos_part,
}
use so2_joan_erik.Task.{Task}
use so2_joan_erik.Memory.{alloc_frame, free_frame, get_frame}
use so2_joan_erik.Directories.{Directories, heap_zones_base, enomem, set_at}
use so2_joan_erik.Process.{einval}
use so2_joan_erik.Machine.{Machine, get_dir, get_pt}
use so2_joan_erik.Paging.{pag_log_init_heap}
use so2_joan_erik.Threads.{on_sched}
use so2_joan_erik.Fork.{heap_of, map_page, unmap_page}

-- The heap's size in pages; it is never negative.
abbrev pub heap_pages : Machine → ℕ
heap_pages m = pos_part (heap_of m m.kernel.sched.current)

-- `*(current()->my_heap) = v`
unfoldable pub set_heap : ℤ → Machine → Machine
set_heap v m =
    let d = m.dirs in
    record m {
      dirs = record d {
        heap_zones =
            set_at d.heap_zones
              (((m.kernel.sched.tasks m.kernel.sched.current).my_heap - heap_zones_base) / 4) v;
      };
    }

-- The address of the heap's page `n`.
abbrev pub heap_addr : ℕ → ℤ
heap_addr n = pos ((pag_log_init_heap + n) * 4096)

-- `free_frame(frames[j]); del_ss_pag(…, first + j);` for the frames in order.
unfoldable pub undo_pages : ℕ → List ℕ → Machine → Machine
undo_pages page [] m = m
undo_pages page (f ∷ fs) m =
    let freed = record m { phys_mem = free_frame m.phys_mem f } in
    undo_pages (page + 1) fs (unmap_page (get_pt m m.kernel.sched.current) page freed)

-- `n` more pages behind those of `frames`, which start at the page `first`; or none of all these.
unfoldable pub grow_pages : ℕ → ℕ → ℕ → List ℕ → Machine → Bool × Machine
unfolding undo_pages
grow_pages zero i first frames m = (true, m)
grow_pages (suc n) i first frames m =
    let r = alloc_frame m.phys_mem in
    let m' = record m { phys_mem = r.1 } in
    let rest =
      grow_pages n (i + 1) first (frames ++ pos_part r.0 ∷ [])
        (map_page (get_pt m m.kernel.sched.current) (first + i) (pos_part r.0) m') in
    if is_neg r.0 then (false, undo_pages first frames m') else rest

-- A round of the loop that shrinks the heap.
unfoldable pub drop_page : ℕ → Machine → Machine
drop_page i m =
    let pt = get_pt m m.kernel.sched.current in
    let freed = record m { phys_mem = free_frame m.phys_mem (get_frame (m.page_tables pt) i) } in
    unmap_page pt i freed

-- The result, and the new size.
unfoldable pub grow_end : ℕ → Bool × Machine → ℤ × Machine
unfolding set_heap
grow_end n (true, m) = (heap_addr (heap_pages m), set_heap (pos (heap_pages m + n)) m)
grow_end n (false, m) = (enomem, m)

unfoldable pub grow_heap : ℕ → Machine → ℤ × Machine
unfolding grow_pages grow_end
grow_heap n m = grow_end n (grow_pages n 0 (pag_log_init_heap + heap_pages m) [] m)

unfoldable pub shrink_heap : ℕ → Machine → ℤ × Machine
unfolding drop_page set_heap
shrink_heap n m =
    let dropped = for_up n (pag_log_init_heap + heap_pages m - n) drop_page m in
    let shrunk = set_heap (pos (heap_pages m - n)) dropped in
    let flushed = on_sched (λ s. record s { cr3 = get_dir shrunk s.current }) shrunk in
    if ltb (heap_pages m) n then (einval, m) else (heap_addr (heap_pages m - n), flushed)

unfoldable pub sys_dyn_mem : ℤ → Machine → ℤ × Machine
unfolding grow_heap shrink_heap
sys_dyn_mem (pos zero) m = (heap_addr (heap_pages m), m)
sys_dyn_mem (pos (suc n)) m = grow_heap (suc n) m
sys_dyn_mem (negsuc n) m = shrink_heap (suc n) m
