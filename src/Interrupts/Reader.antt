-- ===== src/Interrupts/Reader.antt =====
-- What a key does: its character is stored, and the oldest reader runs.
use so2_joan_erik.Common.{
  ℕ, ◌/◌, ◌%◌, ◌<◌, ◌≤◌, ◌≡◌, refl, ◌∙◌, ap, true, false, List, [], ◌∷◌, ◌++◌, arith, ◌==◌, ltb,
  ==_refl,
}
use so2_joan_erik.Links.Ring.{head_or, is_nil, list_empty-nil, list_first-head_or}
use so2_joan_erik.Task.{read_blocked, IsSlot}
use so2_joan_erik.Sched.{Sched, requeue_current, task_switch}
use so2_joan_erik.Sched.Queues.{Contents, q_read_blocked, anchors}
use so2_joan_erik.Sched.Invariant.{Inv}
use so2_joan_erik.Sched.RoundRobin.{
  Runs, requeued, requeue_current-Inv, list_head_to_task_struct-list_of,
}
use so2_joan_erik.Keyboard.{kb_buffer_size}
use so2_joan_erik.Keyboard.Queue.{IsValid, contents, push-contents}
use so2_joan_erik.Kernel.{Kernel}
use so2_joan_erik.Interrupts.{char_print, store_key, wake_reader, keyboard_routine}

task_switch-Inv : {s : Sched} {q : Contents} (t : ℕ) → Inv s q → Inv (task_switch s t) q
unfolding task_switch
task_switch-Inv t i = record {
  holds = i.holds;
  tagged = i.tagged;
  listed = i.listed;
  idle_slot = i.idle_slot;
  idle_pid = i.idle_pid;
  idle_unlisted = i.idle_unlisted;
}

-- A key below 64: the character is behind those that wait in the buffer; the oldest reader `t` is the
-- current task, still in its queue, and a process that ran is at the end of the ready queue.
pub record KeyRead (k k' : Kernel) (q : Contents) (c t : ℕ) : Type 0 where
  pub keys : contents k'.keys ≡ contents k.keys ++ c ∷ []
  pub inv : Inv k'.sched (requeued k.sched q)
  pub current : k'.sched.current ≡ t

-- A key whose scan code is below 64, with fewer than 254 characters in the buffer and a process that waits
-- for keys, has the effect that `KeyRead` says.
pub keyboard_routine-KeyRead :
    (read_inp : ℕ) {k : Kernel} {q : Contents} {t : ℕ} {ts : List ℕ}
    → Inv k.sched q
    → Runs k.sched q
    → IsValid k.keys
    → kb_buffer_size k.keys < 254
    → q q_read_blocked ≡ t ∷ ts
    → read_inp < 64
    → KeyRead k (keyboard_routine read_inp k) q (char_print read_inp) t
unfolding keyboard_routine store_key wake_reader requeue_current task_switch
keyboard_routine-KeyRead read_inp {k} {q} {t} i r v room wait key =
    let make : (read_inp / 64 == 0) ≡ true = ground (arith, key) in
    let code : read_inp % 128 ≡ read_inp = omega (arith, key) in
    let some_room : ltb (kb_buffer_size k.keys) 255 ≡ true = ground (arith, room) in
    let nonempty =
      list_empty-nil (i.holds.rings q_read_blocked) ∙ ap (λ l. is_nil (anchors l)) wait in
    let first =
      list_first-head_or (i.holds.rings q_read_blocked)
      ∙ ap (λ l. head_or read_blocked (anchors l)) wait in
    let slot : IsSlot t = i.holds.slots q_read_blocked t (rw wait (rw (==_refl t) refl)) in
    let never : ltb read_inp 0 ≡ false = ground arith in
    rw (make, code, never, some_room, nonempty, first, list_head_to_task_struct-list_of t slot)
      (record {
        keys = push-contents (char_print read_inp) v room;
        inv = task_switch-Inv t (requeue_current-Inv i r);
        current = refl;
      })

-- A scan code from 64 on changes nothing: neither the release of a key, nor a key such as the keypad's.
pub keyboard_routine_ignores :
    (read_inp : ℕ) (k : Kernel) → 64 ≤ read_inp → keyboard_routine read_inp k ≡ k
unfolding keyboard_routine
keyboard_routine_ignores read_inp k high =
    let other : (read_inp / 64 == 0) ≡ false = ground (arith, high) in
    let never : ltb (read_inp % 128) 0 ≡ false = ground arith in rw (other, never) refl
