-- ===== src/Process.antt =====
-- The calls of sys.c that write, block and wait, and the clock of interrupt.c.
--
-- The auxiliary buffer of sys_write stands at the address `aux`. Its loop runs on fuel: the size,
-- which falls in each round. A user's pointer is a number, NULL is 0.
pub mod Write
pub mod Block
pub mod Fair
pub mod Wait
pub mod Read
use so2_joan_erik.Common.{
  ℕ, zero, suc, ◌+◌, ◌-◌, ltb, leb, ◌==◌, not, Bool, true, false, ◌&&◌, ◌||◌, if◌then◌else◌, ℤ, pos,
  negsuc, ◌+ℤ◌, ◌-ℤ◌, is_pos, eqb_ℤ, leb_ℤ, pos_part,
}
use so2_joan_erik.Links.{Links}
use so2_joan_erik.Task.{Task, blocked}
use so2_joan_erik.Sched.{Sched, update_task, needs_sched_rr, update_sched_data_rr, sched_next_rr}
use so2_joan_erik.Screen.{Screen, sys_write_console}
use so2_joan_erik.UserMem.{Mem, Access, verify_read, access_ok, copy_from_user}
use so2_joan_erik.Kernel.{Kernel, Call, pure, modify_sched, move_to, yield, get, ◌>>=◌, ◌>>◌}

abbrev pub einval : ℤ
einval = negsuc 21

abbrev pub efault : ℤ
efault = negsuc 13

abbrev pub ebadf : ℤ
ebadf = negsuc 8

abbrev pub eacces : ℤ
eacces = negsuc 12

abbrev pub escriptura : ℤ
escriptura = pos 1

abbrev pub write_aux_buff_max_size : ℕ
write_aux_buff_max_size = 1024

unfoldable pub check_fd : ℤ → ℤ → ℤ
check_fd fd permissions =
    if not (eqb_ℤ fd (pos 1))
    then ebadf
    else if not (eqb_ℤ permissions escriptura)
    then eacces
    else pos 0

-- Memory and screen, which sys_write works on.
pub record Output : Type 0 where
  pub mem : Mem
  pub screen : Screen

-- `copy_from_user(buffer, bufferAux, size); ret += sys_write_console(bufferAux, size);`
unfoldable pub write_chunk : ℕ → ℕ → ℕ → ℕ → Output → ℕ × Output
write_chunk aux buffer size ret o =
    let m = (copy_from_user o.mem buffer aux (pos size)).1 in
    let r = sys_write_console o.screen (λ i. m (aux + i)) size in
    (ret + r.0, record { mem = m; screen = r.1 })

-- The loop of sys_write and the chunk behind it.
unfoldable pub write_chunks : ℕ → ℕ → ℕ → ℕ → ℕ → Output → ℕ × Output
write_chunks zero aux buffer size ret o = write_chunk aux buffer size ret o
write_chunks (suc f) aux buffer size ret o =
    let first = write_chunk aux buffer write_aux_buff_max_size ret o in
    let rest =
      write_chunks f aux (buffer + write_aux_buff_max_size) (size - write_aux_buff_max_size) first.0
        first.1 in
    if ltb write_aux_buff_max_size size then rest else write_chunk aux buffer size ret o

unfoldable pub sys_write : ℕ → ℤ → ℕ → ℤ → Output → ℤ × Output
sys_write aux fd buffer size o =
    let bad = check_fd fd escriptura in
    let n = pos_part size in
    let w = write_chunks n aux buffer n 0 o in
    if not (eqb_ℤ bad (pos 0))
    then (bad, o)
    else if buffer == 0
    then (efault, o)
    else if leb_ℤ size (pos 0)
    then (einval, o)
    else if not (access_ok verify_read buffer n)
    then (efault, o)
    else (pos w.0, w.1)

unfoldable pub sys_ni_syscall : ℤ
sys_ni_syscall = negsuc 37

unfoldable pub sys_block : Call (Unit {0})
sys_block k =
    let t = k.sched.current in
    let ct = k.sched.tasks t in
    if leb_ℤ ct.pending_unblocks (pos 0)
    then (move_to t blocked >> yield) k
    else modify_sched
        (λ s. record s {
          tasks =
              update_task s.tasks t (record ct { pending_unblocks = ct.pending_unblocks -ℤ pos 1 });
        })
        k

unfoldable pub sys_gettime : Kernel → ℤ
sys_gettime k = k.zeos_tick

-- clock_routine; what zeos_show_clock, a routine of the library libzeos.a, does to the screen is `show`.
unfoldable pub clock_routine : (Screen → Screen) → Kernel → Kernel
clock_routine show k =
    let s = update_sched_data_rr k.sched in
    record k {
      screen = show k.screen;
      zeos_tick = k.zeos_tick +ℤ pos 10;
      sched = if needs_sched_rr s then sched_next_rr s else s;
    }
