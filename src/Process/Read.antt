-- ===== src/Process/Read.antt =====
-- sys_read of sys.c. What the call gives back is its result and the bytes that copy_to_user puts into
-- the user's buffer. The wait for characters runs on fuel, since it has no bound: keys arrive, or not.
use so2_joan_erik.Common.{
  ℕ, zero, suc, ◌≤◌, ◌≡◌, ◌≢◌, refl, ◌∙◌, ap, sym, Bool, ◌&&◌, not, ltb, ◌==◌, if◌then◌else◌, List,
  [], ◌∷◌, ◌++◌, length, arith, ℤ, pos, eqb_ℤ, pos_part, is_neg,
}
use so2_joan_erik.Links.{null, list_empty, list_first}
use so2_joan_erik.Task.{read_blocked, list_head_to_task_struct}
use so2_joan_erik.Sched.{Sched}
use so2_joan_erik.Keyboard.{KeyBuffer, kb_buffer_pop, kb_buffer_size}
use so2_joan_erik.Keyboard.Queue.{IsValid, contents, pop-IsValid, size-pop, pop-contents}
use so2_joan_erik.UserMem.{verify_write, access_ok}
use so2_joan_erik.Kernel.{out_of_fuel, Call, pure, move_to, yield, ◌>>◌}
use so2_joan_erik.Process.{efault, einval}

-- `for (i = 0; i < n; ++i) tmpbuff[i] = kb_buffer_pop();`
unfoldable pub pop_chars : ℕ → KeyBuffer → List ℕ × KeyBuffer
pop_chars zero b = ([], b)
pop_chars (suc n) b =
    let first = kb_buffer_pop b in let rest = pop_chars n first.1 in (first.0 ∷ rest.0, rest.1)

-- `while (kb_buffer_size() < maxchars) sched_next_rr();`
unfoldable pub wait_chars : ℕ → ℕ → Call (Unit {0})
wait_chars zero n k = out_of_fuel
wait_chars (suc fuel) n k =
    let rest = (yield >> wait_chars fuel n) k in
    if ltb (kb_buffer_size k.keys) n then rest else pure tt k

-- Whether another reader waits in front.
unfoldable pub reader_before : Sched → Bool
reader_before s =
    not (list_empty s.links read_blocked)
    && not (
        eqb_ℤ (s.tasks (list_head_to_task_struct (list_first s.links read_blocked))).pid
          (s.tasks s.current).pid)

abbrev pub wait_turn : Call (Unit {0})
wait_turn k = if reader_before k.sched then yield k else pure tt k

-- The characters, and the caller runs again.
unfoldable pub take_chars : ℕ → Call (ℤ × List ℕ)
unfolding pop_chars
take_chars n k =
    let r = pop_chars n k.keys in
    (move_to k.sched.current null >> pure (pos n, r.0)) (record k { keys = r.1 })

unfoldable pub read_chars : ℕ → ℕ → Call (ℤ × List ℕ)
unfolding wait_chars take_chars reader_before
read_chars fuel n k =
    (move_to k.sched.current read_blocked >> (wait_turn >> (wait_chars fuel n >> take_chars n))) k

unfoldable pub sys_read : ℕ → ℕ → ℤ → Call (ℤ × List ℕ)
unfolding read_chars
sys_read fuel b maxchars k =
    if b == 0
    then pure (efault, []) k
    else if is_neg maxchars
    then pure (einval, []) k
    else if not (access_ok verify_write b (pos_part maxchars))
    then pure (efault, []) k
    else read_chars fuel (pos_part maxchars) k

-- With indices in the array and `n` characters in the buffer at least, the loop of sys_read takes the `n`
-- oldest, in the order in which they came, and leaves the others.
pub pop_chars-contents :
    (n : ℕ) {b : KeyBuffer}
    → IsValid b
    → n ≤ kb_buffer_size b
    → (length (pop_chars n b).0 ≡ n)
      × ((pop_chars n b).0 ++ contents (pop_chars n b).1 ≡ contents b)
unfolding pop_chars
pop_chars-contents zero v h = (refl, refl)
pop_chars-contents (suc n) {b} v h =
    let some : kb_buffer_size b ≢ 0 = omega (arith, h) in
    let rest = pop_chars-contents n (pop-IsValid v) (omega (arith, h, size-pop v some)) in
    (ap suc rest.0, ap (◌∷◌ (kb_buffer_pop b).0) rest.1 ∙ sym (pop-contents v some))
