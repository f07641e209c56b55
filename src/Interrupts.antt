-- ===== src/Interrupts.antt =====
-- keyboard_routine of interrupt.c. What `inb(0x60)` reads is a parameter, a byte.
pub mod Reader
use so2_joan_erik.Common.{ℕ, ◌/◌, ◌%◌, ◌==◌, ltb, ◌&&◌, if◌then◌else◌, List, [], ◌∷◌, get_or}
use so2_joan_erik.Links.{list_empty, list_first}
use so2_joan_erik.Task.{is_run, readyqueue, read_blocked, list_head_to_task_struct}
use so2_joan_erik.Sched.{Sched, update_process_state_rr, task_switch}
use so2_joan_erik.Keyboard.{KeyBuffer, kb_buffer_size_max, kb_buffer_push, kb_buffer_size}
use so2_joan_erik.Kernel.{Kernel}

abbrev pub char_map : List ℕ
char_map =
    0 ∷ 0 ∷ 49 ∷ 50 ∷ 51 ∷ 52 ∷ 53 ∷ 54 ∷ 55 ∷ 56 ∷ 57 ∷ 48 ∷ 39 ∷ 161 ∷ 0 ∷ 0 ∷ 113 ∷ 119 ∷ 101
    ∷ 114 ∷ 116 ∷ 121 ∷ 117 ∷ 105 ∷ 111 ∷ 112 ∷ 96 ∷ 43 ∷ 0 ∷ 0 ∷ 97 ∷ 115 ∷ 100 ∷ 102 ∷ 103 ∷ 104
    ∷ 106 ∷ 107 ∷ 108 ∷ 241 ∷ 0 ∷ 186 ∷ 0 ∷ 231 ∷ 122 ∷ 120 ∷ 99 ∷ 118 ∷ 98 ∷ 110 ∷ 109 ∷ 44 ∷ 46
    ∷ 45 ∷ 0 ∷ 42 ∷ 0 ∷ 0 ∷ 0 ∷ 0 ∷ 0 ∷ 0 ∷ 0 ∷ 0 ∷ 0 ∷ 0 ∷ 0 ∷ 0 ∷ 0 ∷ 0 ∷ 0 ∷ 55 ∷ 56 ∷ 57 ∷ 45
    ∷ 52 ∷ 53 ∷ 54 ∷ 43 ∷ 49 ∷ 50 ∷ 51 ∷ 48 ∷ 0 ∷ 0 ∷ 0 ∷ 60 ∷ 0 ∷ 0 ∷ 0 ∷ 0 ∷ 0 ∷ 0 ∷ 0 ∷ 0 ∷ 0 ∷ 0
    ∷ 0 ∷ []

-- The character of a key, 'C' for a key without one.
unfoldable pub char_print : ℕ → ℕ
char_print p_ch = let c = get_or char_map p_ch 0 in if c == 0 then 67 else c

unfoldable pub store_key : ℕ → KeyBuffer → KeyBuffer
store_key c b = if ltb (kb_buffer_size b) kb_buffer_size_max then kb_buffer_push b c else b

-- The process that has waited longest for keys takes the CPU.
unfoldable pub wake_reader : Sched → Sched
wake_reader s =
    let s' =
      if is_run (s.tasks s.current).current_state
      then update_process_state_rr s s.current readyqueue
      else s in
    if list_empty s.links read_blocked
    then s
    else task_switch s' (list_head_to_task_struct (list_first s.links read_blocked))

unfoldable pub keyboard_routine : ℕ → Kernel → Kernel
keyboard_routine read_inp k =
    let is_break = read_inp / 64 in
    let p_ch = read_inp % 128 in
    let read = record k {
      keys = store_key (char_print p_ch) k.keys;
      sched = wake_reader k.sched;
    } in
    if ltb p_ch 0 && ltb 98 p_ch then k else if is_break == 0 then read else k
