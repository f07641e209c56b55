-- ===== src/Tests/Start.antt =====
-- The theorems on the start, on new tasks, keys and heaps, at concrete inputs.
use so2_joan_erik.Common.{
  ℕ, ◌+◌, ◌*◌, ◌%◌, ◌<◌, ◌≡◌, refl, ◌⊎◌, true, false, [], ◌∷◌, arith, ◌==◌, if◌then◌else◌, some,
  none, pos, ℤ, pos_part, List, ◌||◌, not, ◌-◌, neg_part, ◌^◌,
}
use so2_joan_erik.Links.{init_list_head}
use so2_joan_erik.Links.Ring.{init_list_head-Ring, init_list_head_same}
use so2_joan_erik.Task.{task_addr, fills_of, freequeue, read_blocked}
use so2_joan_erik.Sched.{Sched, set_links, place, unlink, state_for, update_process_state_rr}
use so2_joan_erik.Sched.Queues.{q_free, q_read_blocked, Contents, take, enqueue}
use so2_joan_erik.Sched.Invariant.{Inv}
use so2_joan_erik.Sched.Moves.{update_process-Inv}
use so2_joan_erik.Sched.Spared.{Inv-elsewhere}
use so2_joan_erik.Sched.RoundRobin.{Runs}
use so2_joan_erik.Kernel.{Kernel}
use so2_joan_erik.Machine.{Machine}
use so2_joan_erik.Memory.{alloc_frame, alloc_loop}
use so2_joan_erik.Keyboard.{kb_buffer_size}
use so2_joan_erik.UserMem.{verify_read, verify_write, access_ok, access_switch, access_default}
use so2_joan_erik.Paging.{give_dir, pag_log_init_heap}
use so2_joan_erik.Directories.{allocate_dir, allocate_heap, find_dir}
use so2_joan_erik.Boot.{boot, give_heap}
use so2_joan_erik.Sched.Registers.{Loaded}
use so2_joan_erik.Boot.Ready.{after_boot, Started, boot-Started}
use so2_joan_erik.Boot.First.{boot-Creator}
use so2_joan_erik.Threads.{sys_create_thread, take_union, copy_union}
use so2_joan_erik.Threads.Ready.{Creator}
use so2_joan_erik.Threads.Created.{CreatesThread, sys_create_thread-CreatesThread}
use so2_joan_erik.Fork.{alloc_frames, heap_of, fork_start, sys_fork}
use so2_joan_erik.Fork.Frames.{FramesOutcome, alloc_frames-FramesOutcome}
use so2_joan_erik.Fork.Child.{Forks, ForkFails, frames_for, sys_fork-Forks, sys_fork-ForkFails}
use so2_joan_erik.DynMem.{sys_dyn_mem, grow_heap, grow_end, grow_pages, set_heap}
use so2_joan_erik.DynMem.Shrink.{Shrunk, sys_dyn_mem_shrinks}
use so2_joan_erik.DynMem.Grow.{Grown, NotGrown, sys_dyn_mem_grows}
use so2_joan_erik.Malloc.{Heap, malloc, free}
use so2_joan_erik.Malloc.Free.{Freed, free-Freed}
use so2_joan_erik.Malloc.Blocks.{Block, Tiles}
use so2_joan_erik.Malloc.FirstFit.{Given, allocated}
use so2_joan_erik.Malloc.Used.{Room, malloc-Room}
use so2_joan_erik.Interrupts.{char_print, keyboard_routine}
use so2_joan_erik.Interrupts.Reader.{KeyRead, keyboard_routine-KeyRead}
use so2_joan_erik.Common.{for_up, is_neg, negsuc}
use so2_joan_erik.Memory.{empty_entry}
use so2_joan_erik.Fork.{copy_out}
use so2_joan_erik.Fork.Copy.{Copyable, PagesCopied, copy_out-PagesCopied}
use so2_joan_erik.Tests.Queues.{
  alone, no_tasks, first_at, second_at, alone-Inv, first-IsSlot, second-IsSlot,
}

-- What there may be before main.
abbrev pub machine_of : Sched → ℕ → Machine
machine_of s mark = record {
  kernel = record {
    sched = s;
    semaphores = λ i. record { id = pos 0; value = pos 0; free = true; creator_pid = pos 0 };
    pid_global = pos 1000;
    sem_id_global = pos 0;
    sem_id_system = pos 0;
    keys = record { buffer = λ i. 0; head = 0; tail = 0 };
    screen = record { x = 0; y = 0; foreground = 2; background = 0; cells = λ i. 0 };
    zeos_tick = pos 0;
  };
  dirs = record { dir_pages_num_references = λ i. pos 0; heap_zones = λ i. pos 0 };
  phys_mem = λ i. mark;
  dir_entries =
      λ a. record { present = false; rw_bit = false; user = false; other = 0; pbase_addr = 80 };
  page_tables =
      λ a i. record { present = false; rw_bit = false; user = false; other = 0; pbase_addr = 0 };
  ram = λ a. 0;
}

abbrev blank : Machine
blank = machine_of alone 0

boot-Started_example :
    Started (boot 4096 blank).kernel.sched × Loaded (boot 4096 blank).kernel.sched
boot-Started_example = boot-Started 4096 blank

code_ok : access_ok verify_read 0x114000 4 ≡ true
unfolding access_ok access_switch access_default
code_ok = refl

stack_ok : access_ok verify_write 0x110000 4 ≡ true
unfolding access_ok access_switch access_default
stack_ok = refl

sys_create_thread-CreatesThread_example :
    CreatesThread 8192 0x114000 0x110000
      (boot 4096 blank)
      (sys_create_thread 8192 0x114000 0x110000 7 (boot 4096 blank))
      after_boot
      (task_addr 2)
      []
sys_create_thread-CreatesThread_example =
    sys_create_thread-CreatesThread 8192 0x114000 0x110000 7 (boot 4096 blank)
      (boot-Creator 4096 blank refl) code_ok stack_ok

-- The second task free, the first without children.
abbrev one_free : Contents
one_free = enqueue (take no_tasks second_at) q_free second_at

abbrev freed : Sched
freed = update_process_state_rr alone second_at freequeue

abbrev spare : Sched
spare = set_links freed (init_list_head freed.links (fills_of first_at))

spare-Inv : Inv spare one_free
spare-Inv =
    Inv-elsewhere _ (update_process-Inv alone-Inv second_at second-IsSlot q_free refl (λ r k. refl))
      λ a off. init_list_head_same freed.links (fills_of first_at) a (omega (arith, off))

spare-Creator : (mark : ℕ) → Creator (machine_of spare mark).kernel one_free second_at [] []
unfolding update_process_state_rr place unlink state_for
spare-Creator mark = record {
  inv = spare-Inv;
  runs = record {
    slot = first-IsSlot;
    unlisted = λ h k. ground arith;
    live = λ h. refl;
    idle = λ h. ground (arith, h);
    unique = λ t h e. ground (arith, h, e);
  };
  running = refl;
  free = refl;
  family = record {
    ring = init_list_head-Ring freed.links (fills_of first_at) (omega arith);
    slots = λ t h. ground (arith, h);
    parent = first-IsSlot;
  };
  fresh = refl;
  next_pid = refl;
  other_pid = λ e. ground (arith, e);
}

none_left : (frames_for (machine_of spare 1) second_at).0 ≡ none
unfolding fork_start alloc_frames alloc_frame alloc_loop heap_of take_union copy_union give_dir
    give_heap allocate_dir allocate_heap find_dir update_process_state_rr place unlink
none_left = refl

sys_fork-ForkFails_example :
    ForkFails (machine_of spare 1) (sys_fork 8192 (machine_of spare 1)) one_free second_at
sys_fork-ForkFails_example =
    sys_fork-ForkFails 8192 (machine_of spare 1) (spare-Creator 1) none_left

enough_left :
    (frames_for (machine_of spare 0) second_at).0
    ≡ some (
        256 ∷ 258 ∷ 260 ∷ 262 ∷ 264 ∷ 266 ∷ 268 ∷ 270 ∷ 272 ∷ 274 ∷ 276 ∷ 278 ∷ 280 ∷ 282 ∷ 284
        ∷ 286 ∷ 288 ∷ 290 ∷ 292 ∷ 294 ∷ [])
unfolding fork_start alloc_frames alloc_frame alloc_loop heap_of take_union copy_union give_dir
    give_heap allocate_dir allocate_heap find_dir update_process_state_rr place unlink
enough_left = refl

sys_fork-Forks_example :
    Forks 8192 (machine_of spare 0) (sys_fork 8192 (machine_of spare 0)) one_free second_at []
sys_fork-Forks_example = sys_fork-Forks 8192 (machine_of spare 0) (spare-Creator 0) enough_left

alloc_frames-FramesOutcome_example : FramesOutcome 3 (λ i. i % 4) (alloc_frames 3 [] (λ i. i % 4))
alloc_frames-FramesOutcome_example = alloc_frames-FramesOutcome 3 (λ i. i % 4)

sys_dyn_mem_grows_example :
    Grown 3 blank (sys_dyn_mem (pos 3) blank) ⊎ NotGrown blank (sys_dyn_mem (pos 3) blank)
sys_dyn_mem_grows_example = sys_dyn_mem_grows 2 blank

two_pages : is_neg (sys_dyn_mem (pos 2) blank).0 ≡ false
unfolding sys_dyn_mem grow_heap grow_end grow_pages heap_of alloc_frame alloc_loop set_heap
two_pages = refl

sys_dyn_mem_shrinks_example : Shrunk 2 blank (sys_dyn_mem (negsuc 1) (sys_dyn_mem (pos 2) blank).1)
sys_dyn_mem_shrinks_example = sys_dyn_mem_shrinks 1 blank two_pages

-- dyn_mem as the kernel has it: an error number is a pointer near the end of the addresses.
abbrev kernel_break : ℤ → Machine → ℕ × Machine
kernel_break n m =
    let r = sys_dyn_mem n m in (if is_neg r.0 then 2 ^ 32 - neg_part r.0 else pos_part r.0, r.1)

-- The machine after `dyn_mem(1)`.
abbrev one_page : Machine
one_page = (kernel_break (pos 1) blank).1

abbrev heap_base : ℕ
heap_base = pag_log_init_heap * 4096

-- A heap of one page: a block of 32 bytes in use, and the rest.
abbrev small : Heap Machine
small = record {
  heap_start = heap_base;
  heap_end = heap_base + 4096;
  size = λ a. if (a == heap_base) || (a == heap_base + 24) then 32 else 4064;
  is_free = λ a. not ((a == heap_base) || (a == heap_base + 24));
  system = one_page;
}

abbrev small_blocks : List Block
small_blocks = record { bytes = 32; free = false } ∷ record { bytes = 4064; free = true } ∷ []

small-Tiles : Tiles small heap_base small_blocks (heap_base + 4096)
small-Tiles = (
  record {
    header_size = refl;
    header_free = refl;
    footer_size = refl;
    footer_free = refl;
    large = omega arith;
  },
  (
    record {
      header_size = refl;
      header_free = refl;
      footer_size = refl;
      footer_free = refl;
      large = omega arith;
    },
    refl,
  ),
)

-- The next page follows the first.
second_page : (kernel_break (pos 1) one_page).0 ≡ heap_base + 4096
unfolding sys_dyn_mem grow_heap grow_end grow_pages heap_of alloc_frame alloc_loop set_heap
second_page = refl

malloc-Room_example :
    let a = allocated 4066 4096 small_blocks in
    Given small a.0 a.1
      (kernel_break (pos 1) one_page).1
      (malloc kernel_break 4097 (pos 4050) small)
    × Room 4066 small_blocks a.0 a.1
malloc-Room_example =
    malloc-Room kernel_break small small_blocks 4097 4050 (omega arith) small-Tiles (omega arith)
      (omega arith) (λ e. second_page)

-- The second task waits for keys.
abbrev one_reader : Contents
one_reader = enqueue (take no_tasks second_at) q_read_blocked second_at

abbrev reading : Kernel
reading = (machine_of (update_process_state_rr alone second_at read_blocked) 0).kernel

reading-Inv : Inv reading.sched one_reader
reading-Inv = update_process-Inv alone-Inv second_at second-IsSlot q_read_blocked refl (λ r k. refl)

reading-Runs : Runs reading.sched one_reader
unfolding update_process_state_rr place unlink state_for
reading-Runs = record {
  slot = first-IsSlot;
  unlisted = λ h k. ground arith;
  live = λ h. refl;
  idle = λ h. ground (arith, h);
  unique = λ t h e. ground (arith, h, e);
}

reading_room : kb_buffer_size reading.keys < 254
unfolding kb_buffer_size
reading_room = omega arith

keyboard_routine-KeyRead_example :
    KeyRead reading (keyboard_routine 30 reading) one_reader (char_print 30) second_at
keyboard_routine-KeyRead_example =
    keyboard_routine-KeyRead 30 reading-Inv reading-Runs
      (record { head_in = omega arith; tail_in = omega arith }) reading_room refl (omega arith)

-- Tables at 1 and 2, with frames of their own.
abbrev paged : Machine
paged = record blank {
  page_tables = λ pt p. record empty_entry { pbase_addr = if pt == 1 then p + 100 else p + 500 };
}

paged-Copyable : Copyable paged 1 2 2 3 5
paged-Copyable = record {
  tables = omega arith;
  room = omega arith;
  fits = λ j lo hi. omega (arith, lo, hi);
  apart = λ i j li hi lj hj. omega (arith, li, hi, lj, hj);
  distinct = λ i j li hi lj hj ne. omega (arith, ne);
}

copy_out-PagesCopied_example : PagesCopied paged (for_up 2 3 (copy_out 1 2 5) paged) 1 2 2 3 5
copy_out-PagesCopied_example = copy_out-PagesCopied 2 3 paged 1 2 5 paged-Copyable

free-Freed_example :
    Freed kernel_break small []
      (record { bytes = 32; free = false })
      (record { bytes = 4064; free = true } ∷ [])
      (free kernel_break (heap_base + 8) small)
free-Freed_example =
    free-Freed kernel_break small [] (record { bytes = 32; free = false })
      (record { bytes = 4064; free = true } ∷ []) (λ e. omega (arith, e)) small-Tiles refl
      (λ f lo. refl)
