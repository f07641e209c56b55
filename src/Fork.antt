-- ===== src/Fork.antt =====
-- sys_fork of sys.c.
--
-- A child has the directory, the frames for its data and its heap, and the pages of code and kernel of
-- its parent. The copy of a page goes through a page that is mapped for it in the parent's table; the
-- bytes copied are those of the two frames. The address of ret_from_fork is a parameter.
pub mod Frames
pub mod Copy
pub mod Child
use so2_joan_erik.Common.{
  ℕ, zero, suc, ◌+◌, ◌-◌, ◌*◌, ◌/◌, ◌==◌, Bool, if◌then◌else◌, for_up, List, [], ◌∷◌, ◌++◌, get_or,
  Option, none, some, ℤ, pos, negsuc, ◌+ℤ◌, is_neg, pos_part,
}
use so2_joan_erik.Links.{list_add_tail, list_empty, list_first}
use so2_joan_erik.Task.{Task, list_of, freequeue, list_head_to_task_struct}
use so2_joan_erik.Memory.{
  PhysMem, alloc_frame, free_frame, get_frame, set_ss_pag, del_ss_pag, num_pag_kernel,
}
use so2_joan_erik.UserMem.{copy_data}
use so2_joan_erik.Directories.{enomem, heap_zones_base}
use so2_joan_erik.Machine.{Machine, set_table, get_dir, get_pt}
use so2_joan_erik.Paging.{
  give_dir, num_pag_data, num_pag_code, pag_log_init_data, pag_log_init_code, pag_log_init_heap,
}
use so2_joan_erik.Boot.{give_heap}
use so2_joan_erik.Threads.{on_kernel, on_sched, on_task, take_union, enlist, set_frame, made_ready}

-- `*(t->my_heap)`
unfoldable pub heap_of : Machine → ℕ → ℤ
heap_of m t = m.dirs.heap_zones (((m.kernel.sched.tasks t).my_heap - heap_zones_base) / 4)

-- The frames of `frames`, freed in order.
unfoldable pub free_frames : List ℕ → PhysMem → PhysMem
free_frames [] mem = mem
free_frames (f ∷ fs) mem = free_frames fs (free_frame mem f)

-- `n` more frames; if there are not as many, all are freed.
unfoldable pub alloc_frames : ℕ → List ℕ → PhysMem → Option (List ℕ) × PhysMem
unfolding free_frames
alloc_frames zero frames mem = (some frames, mem)
alloc_frames (suc n) frames mem =
    let r = alloc_frame mem in
    let rest = alloc_frames n (frames ++ pos_part r.0 ∷ []) r.1 in
    if is_neg r.0 then (none, free_frames frames r.1) else rest

-- `set_ss_pag(PT, page, frame)` and `del_ss_pag(PT, page)`, as statements.
abbrev pub map_page : ℕ → ℕ → ℕ → Machine → Machine
map_page pt page frame m = set_table m pt (set_ss_pag (m.page_tables pt) page frame)

abbrev pub unmap_page : ℕ → ℕ → Machine → Machine
unmap_page pt page m = set_table m pt (del_ss_pag (m.page_tables pt) page)

-- `n` pages from `first` on get the parent's frames.
unfoldable pub share_pages : ℕ → ℕ → ℕ → ℕ → Machine → Machine
share_pages child parent n first =
    for_up n first λ i m. map_page child i (get_frame (m.page_tables parent) i) m

-- `n` pages from `first` on get the frames from `frames[k]` on.
unfoldable pub own_pages : ℕ → List ℕ → ℕ → ℕ → ℕ → Machine → Machine
own_pages child frames k n first =
    for_up n 0 λ i. map_page child (first + i) (get_or frames (k + i) 0)

-- `copy_data((void *)(i << 12), (void *)(j << 12), PAGE_SIZE)`, by the page table at `pt`.
unfoldable pub copy_page : ℕ → ℕ → ℕ → Machine → Machine
copy_page pt i j m =
    let table = m.page_tables pt in
    record m {
      ram = copy_data m.ram (get_frame table i * 4096) (get_frame table j * 4096) (pos 4096);
    }

-- A round of the two loops that copy: page `i` of the parent to the child's frame.
unfoldable pub copy_out : ℕ → ℕ → ℕ → ℕ → Machine → Machine
unfolding copy_page
copy_out child parent offset i m = unmap_page parent (i + offset) (
    copy_page parent i (i + offset)
      (map_page parent (i + offset) (get_frame (m.page_tables child) i) m))

-- The pages of the child, its frames being `frames`: kernel, code, data, heap; then the copies.
unfoldable pub fork_pages : ℕ → List ℕ → Machine → Machine
fork_pages fill frames m =
    let child = get_pt m fill in
    let parent = get_pt m m.kernel.sched.current in
    let heap = pos_part (heap_of m m.kernel.sched.current) in
    let shared =
      share_pages child parent num_pag_code pag_log_init_code
        (share_pages child parent num_pag_kernel 0 m) in
    let owned =
      own_pages child frames num_pag_data heap pag_log_init_heap
        (own_pages child frames 0 num_pag_data pag_log_init_data shared) in
    let copied =
      for_up num_pag_data pag_log_init_data
        (copy_out child parent (num_pag_data + num_pag_code + heap)) owned in
    for_up heap pag_log_init_heap (copy_out child parent (num_pag_data + heap)) copied

-- From the copy of the union on, until the frames: the child's directory, and the parent's heap size.
unfoldable pub fork_start : ℕ → ℕ → Machine → Machine
fork_start e fill m =
    let given = give_heap fill (give_dir fill (on_sched (take_union e fill) m)) in
    on_task fill
      (λ t. record t { my_heap = (given.kernel.sched.tasks given.kernel.sched.current).my_heap })
      given

-- Then with the frames.
unfoldable pub fork_made : ℕ → ℕ → List ℕ → Machine → Machine
fork_made ret fill frames m =
    let paged = fork_pages fill frames m in
    let flushed = on_sched (λ s. record s { cr3 = get_dir paged s.current }) paged in
    on_task fill (set_frame fill ret) (on_kernel (enlist fill) flushed)

-- Or without.
unfoldable pub fork_end : ℕ → ℕ → Option (List ℕ) → Machine → ℤ × Machine
fork_end ret fill (some frames) m = made_ready fill (fork_made ret fill frames m)
fork_end ret fill none m =
    (enomem, on_sched (λ s. record s { links = list_add_tail s.links (list_of fill) freequeue }) m)

unfoldable pub fork_in : ℕ → ℕ → ℕ → Machine → ℤ × Machine
unfolding alloc_frames
fork_in ret e fill m =
    let started = fork_start e fill m in
    let n = pos_part (pos num_pag_data +ℤ heap_of started started.kernel.sched.current) in
    let frames = alloc_frames n [] started.phys_mem in
    fork_end ret fill frames.0 (record started { phys_mem = frames.1 })

unfoldable pub sys_fork : ℕ → Machine → ℤ × Machine
sys_fork ret m =
    let e = list_first m.kernel.sched.links freequeue in
    let forked = fork_in ret e (list_head_to_task_struct e) m in
    if list_empty m.kernel.sched.links freequeue then (enomem, m) else forked
