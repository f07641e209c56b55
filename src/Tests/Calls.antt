-- ===== src/Tests/Calls.antt =====
-- The theorems on calls that are over at once, at concrete inputs.
use so2_joan_erik.Common.{
  ◌+◌, ◌*◌, ◌%◌, ◌<◌, ◌≤◌, ◌≡◌, refl, false, [], ◌++◌, arith, ltb, if◌then◌else◌, inl, pos, ◌<ℤ◌,
}
use so2_joan_erik.Keyboard.{KeyBuffer, kb_buffer_push, kb_buffer_size}
use so2_joan_erik.Keyboard.Queue.{contents, push_full-contents}
use so2_joan_erik.Screen.{Screen}
use so2_joan_erik.Screen.Cursor.{Written, sys_write_console-Written}
use so2_joan_erik.UserMem.{Mem, verify_read, access_ok, copy_data, copy_from_user, copy_to_user}
use so2_joan_erik.UserMem.Copy.{Copied, copies-Copied}
use so2_joan_erik.UserMem.Bounds.{access_ok_bounds}
use so2_joan_erik.Memory.{PhysMem, alloc_frame}
use so2_joan_erik.Memory.Frames.{Outcome, alloc_frame-Outcome}
use so2_joan_erik.Process.{Output, sys_write}
use so2_joan_erik.Common.{length}
use so2_joan_erik.Process.Read.{pop_chars, pop_chars-contents}
use so2_joan_erik.Process.Write.{Prints, sys_write-Prints, sys_write_refused}
use so2_joan_erik.Sched.{Sched}
use so2_joan_erik.Task.{st_run}
use so2_joan_erik.Kernel.{Kernel}

abbrev one_key : KeyBuffer
one_key = record { buffer = λ i. i; head = 0; tail = 254 }

abbrev full_keys : KeyBuffer
full_keys = record { buffer = λ i. i; head = 254; tail = 0 }

abbrev three_keys : KeyBuffer
three_keys = record { buffer = λ i. i; head = 1; tail = 253 }

pop_chars-contents_example :
    (length (pop_chars 2 three_keys).0 ≡ 2)
    × ((pop_chars 2 three_keys).0 ++ contents (pop_chars 2 three_keys).1 ≡ contents three_keys)
unfolding kb_buffer_size
pop_chars-contents_example =
    pop_chars-contents 2 (record { head_in = omega arith; tail_in = omega arith }) (omega arith)

push_full-contents_example : contents (kb_buffer_push full_keys 65) ≡ []
unfolding kb_buffer_size
push_full-contents_example =
    push_full-contents 65 (record { head_in = omega arith; tail_in = omega arith }) refl

abbrev corner : Screen
corner = record { x = 79; y = 24; foreground = 2; background = 0; cells = λ i. 0 }

sys_write_console-Written_example : Written corner (λ i. 65 + i) 3
sys_write_console-Written_example =
    sys_write_console-Written (λ i. 65 + i) 3 (record { column = omega arith; row = omega arith })
      (λ j lo hi. omega arith) (omega arith)

abbrev bytes : Mem
bytes a = a

copies-Copied_example :
    Copied bytes (copy_data bytes 100 200 (pos 7)) 100 200 7
    × Copied bytes (copy_from_user bytes 100 200 (pos 7)).1 100 200 7
    × Copied bytes (copy_to_user bytes 100 200 (pos 7)).1 100 200 7
    × ((copy_from_user bytes 100 200 (pos 7)).0 ≡ pos 0)
    × ((copy_to_user bytes 100 200 (pos 7)).0 ≡ pos 0)
copies-Copied_example = copies-Copied bytes 100 200 7 (omega arith)

access_ok_bounds_example : (256 * 4096 ≤ 1048580) × (1048580 + 10 < 285 * 4096)
unfolding access_ok
access_ok_bounds_example = access_ok_bounds verify_read 1048580 10 (omega arith) (omega arith) refl

abbrev half_used : PhysMem
half_used i = if ltb i 300 then 1 else 0

alloc_frame-Outcome_example : Outcome half_used 256 (alloc_frame half_used)
alloc_frame-Outcome_example = alloc_frame-Outcome half_used

abbrev output : Output
output = record { mem = λ a. 65 + a % 20; screen = corner }

sys_write-Prints_example :
    ((sys_write 4096 (pos 1) 1048580 (pos 1500) output).0 ≡ pos 1500)
    × Prints 4096 1048580 1500 0 output (1500, (sys_write 4096 (pos 1) 1048580 (pos 1500) output).1)
unfolding access_ok
sys_write-Prints_example =
    sys_write-Prints 4096 1048580 1500 output (omega arith) (omega arith) refl (omega arith)

sys_write_refused_example :
    ((sys_write 4096 (pos 2) 1048580 (pos 3) output).0 <ℤ pos 0)
    × ((sys_write 4096 (pos 2) 1048580 (pos 3) output).1 ≡ output)
sys_write_refused_example =
    sys_write_refused 4096 1048580 (pos 2) (pos 3) output (inl λ e. ground (arith, e))

abbrev sched : Sched
sched = record {
  links = record { next = λ a. a; prev = λ a. a };
  tasks = λ t. record {
    pid = pos 1;
    dir_pages_base_addr = 4096;
    k_esp = 0;
    quantum = pos 10;
    pending_unblocks = pos 2;
    my_heap = 0;
    pare = 0;
    current_state = st_run;
    stack = λ i. 0;
  };
  current = 69632;
  idle_task = 65536;
  task1 = 69632;
  tick_counter = pos 4;
  tss_esp0 = 0;
  msr_esp = 0;
  cr3 = 4096;
}

abbrev kernel : Kernel
kernel = record {
  sched = sched;
  semaphores =
      λ i. record { id = pos (100000 + i); value = pos 2; free = false; creator_pid = pos 1 };
  pid_global = pos 3;
  sem_id_global = pos 100200;
  sem_id_system = pos 0;
  keys = one_key;
  screen = corner;
  zeos_tick = pos 0;
}
