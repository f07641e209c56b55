-- ===== src/Lib.antt =====
-- ZeOS, a small teaching kernel for the i386, and the game that runs on it.
--
-- The kernel keeps its tasks in four queues, which are rings of list heads inside the task
-- descriptors (list.c, include/list.h). The scheduler (sched.c) is a round robin over the ready
-- queue; system calls (sys.c) block their caller, move tasks between the queues and call the
-- scheduler. Interrupts (interrupt.c) put keys into a ring buffer and count the ticks of the quantum.
-- The screen (io.c, devices.c) is the video memory with a cursor and two colours. User pointers are
-- checked and copied by utils.c; frames and page tables are those of mm.c. The user program (user.c)
-- is a game of two threads that paints with the system calls.
--
--   Common          tests on numbers, lists, integers, shared by all
--   Links           list.c and list_first of include/list.h; Ring: what a ring is
--   Task            include/sched.h and list_head_to_task_struct of sched.c
--   Sched           sched.c: inner_task_switch, sched_next_rr, update_process_state_rr, the ticks.
--                   Queues and Invariant say what the links and the descriptors must hold, Registers
--                   what the machine holds of the current task
--   Kernel          the state that the system calls share, and calls that give the CPU away
--   Semaphore       sys_semCreate, sys_semWait, sys_semSignal and sys_semDestroy of sys.c
--   Process         sys_write, sys_block, sys_gettime of sys.c and clock_routine of interrupt.c
--                   Wait: sys_wait_thread and sys_unblock; Read: sys_read
--   Directories     sub_DIR_ref, add_DIR_ref, allocate_DIR and allocate_heap of sched.c
--   Machine         the kernel together with directories, page tables, frames and the user's memory
--   Paging          the page tables of mm.c: init_table_pages, set_user_pages, init_mm and the others
--   Descriptors     setIdt, setInterruptHandler and setTrapHandler of interrupt.c, setGdt and setTSS of mm.c
--   Boot            init_sched, init_idle and init_task1 of sched.c, as main of system.c calls them
--   Threads         sys_create_thread of sys.c; Family: the rings of children
--   Exit            sys_exit of sys.c: the children (Children, Families, Orphans), those that wait
--                   (Waiting, Waiters), the frames (Memory), the next task (Leaves, Exits);
--                   and how sys_wait_thread joins those that wait (Joins)
--   Fork            sys_fork of sys.c
--   DynMem          sys_dyn_mem of sys.c
--   Malloc          malloc and free of libc.c
--   Interrupts      keyboard_routine of interrupt.c
--   Text            itoa and strlen of libc.c, stringNumHex of interrupt.c, and how their text reads
--   Keyboard        kb_buffer_push, kb_buffer_pop and kb_buffer_size of interrupt.c
--   Screen          io.c, sys_write_console of devices.c, sys_gotoxy and sys_set_color of sys.c
--   UserMem         copy_data, copy_from_user, copy_to_user and access_ok of utils.c
--   Memory          init_frames, alloc_frame, free_frame, set_ss_pag, del_ss_pag, get_frame of mm.c
--   Game            user.c: the sprites (Sprites, Pixels), the map (Field), the painting (Paint), the
--                   characters and projectiles (Play), the rounds of gameThread and main (Round)
--   Tests           the theorems at concrete inputs
--
-- State is passed explicitly. Pointers are numbers, and the linker's places are numbers too
-- (Task). A system call that calls the scheduler may stop there: it is a function from the state to a
-- `Run`, which tells how it goes on from the state in which its task is chosen again (Kernel).
-- An `int` is a mathematical integer: its overflow is outside of the model. Bytes,
-- words and addresses wrap where the code relies on it.
--
-- Fuel: the loops of alloc_frame, of the word copies and of sys_write run on a bound of their rounds,
-- with a proof that it is enough; those of sys_unblock and sys_exit run on the number of tasks and
-- one, which for sys_exit is proved to be enough; those of
-- itoa and strlen on a number and on a bound from outside; that of malloc over the blocks on a
-- bound from outside, which may be any above the size of the heap; the wait of sys_read for
-- characters and the loop of sys_semDestroy over the waiters have no bound, since the
-- tasks that run meanwhile may wait again.
--
-- The kernel stack of a task has 4096 bytes. Its overflow, which the array of frames in sys_dyn_mem and
-- sys_fork can cause for very many pages, is outside of the model.
--
-- Not modelled: assembly and the image of the user program (hardware);
-- perror of libc.c; build.c; the test programs of user.c. zeos_show_clock of the
-- library libzeos.a, which has no source here, is a parameter of clock_routine, as its set_handlers is of setIdt; the system call
-- dyn_mem is a parameter of malloc and free.
pub mod Common
pub mod Links
pub mod Task
pub mod Sched
pub mod Keyboard
pub mod Screen
pub mod UserMem
pub mod Memory
pub mod Kernel
pub mod Process
pub mod Semaphore
pub mod Game
pub mod Tests
pub mod Directories
pub mod Text
pub mod Machine
pub mod Paging
pub mod Boot
pub mod Descriptors
pub mod Threads
pub mod Exit
pub mod Fork
pub mod Malloc
pub mod DynMem
pub mod Interrupts
