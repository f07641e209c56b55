-- ===== src/Fork/Child.antt =====
-- sys_fork on a state that satisfies the invariant of the scheduler.
use so2_joan_erik.Common.{
  ℕ, ◌+◌, ◌-◌, ◌*◌, ◌≡◌, refl, ◌≢◌, List, [], for_up-keeps, sym, subst, has-erase_ne, ap, ◌∙◌,
  ==_refl, ne→==, Option, none, some, arith, ℤ, pos, ◌+ℤ◌, pos_part,
}
use so2_joan_erik.Links.{list_add_tail}
use so2_joan_erik.Task.{st_run, kernel_stack_size, list_of, freequeue}
use so2_joan_erik.Sched.Queues.{
  q_free, eqb_queue→eq, Contents, Holds, take, enqueue, has-enqueue, list_add_tail-enqueue,
}
use so2_joan_erik.Sched.Invariant.{Inv}
use so2_joan_erik.Sched.Alike.{replace-Inv}
use so2_joan_erik.Threads.Placed.{copied-Holds, new_not_idle}
use so2_joan_erik.Sched.RoundRobin.{list_head_to_task_struct-list_of}
use so2_joan_erik.Memory.{PhysMem, num_pag_kernel}
use so2_joan_erik.Kernel.{Kernel}
use so2_joan_erik.Directories.{enomem, allocate_dir, find_dir}
use so2_joan_erik.Directories.Tasks.{take_dir-same, allocate_heap-same}
use so2_joan_erik.Task.{nr_tasks}
use so2_joan_erik.Machine.{Machine}
use so2_joan_erik.Paging.{give_dir, num_pag_data}
use so2_joan_erik.Boot.{give_heap}
use so2_joan_erik.Threads.{made_ready, take_union, copy_union, enlist, set_frame}
use so2_joan_erik.Threads.Ready.{
  Creator, Created, slot, is_listed, not_current, new_out, some_free, first_free,
  make_ready-Created, make_ready_task,
}
use so2_joan_erik.Fork.Frames.{FramesOutcome, alloc_frames-FramesOutcome}
use so2_joan_erik.Fork.{
  heap_of, alloc_frames, share_pages, own_pages, copy_out, copy_page, fork_pages, fork_start,
  fork_made, fork_end, fork_in, sys_fork,
}

-- The pages change nothing of the kernel's state.
fork_pages-kernel :
    (fill : ℕ) (frames : List ℕ) (m : Machine) → (fork_pages fill frames m).kernel ≡ m.kernel
unfolding fork_pages share_pages own_pages copy_out copy_page
fork_pages-kernel fill frames m =
    for_up-keeps (λ (x : Machine). x.kernel) _ (λ i s. refl) _ _ _
    ∙ for_up-keeps (λ (x : Machine). x.kernel) _ (λ i s. refl) _ _ _
    ∙ for_up-keeps (λ (x : Machine). x.kernel) _ (λ i s. refl) _ _ _
    ∙ for_up-keeps (λ (x : Machine). x.kernel) _ (λ i s. refl) _ _ _
    ∙ for_up-keeps (λ (x : Machine). x.kernel) _ (λ i s. refl) _ _ _
    ∙ for_up-keeps (λ (x : Machine). x.kernel) _ (λ i s. refl) _ _ _

-- What the copy leaves for the task `t`.
record Copied (m m' : Machine) (t : ℕ) : Type 0 where
  links : m'.kernel.sched.links ≡ (take_union (list_of t) t m.kernel.sched).links
  current : m'.kernel.sched.current ≡ m.kernel.sched.current
  idle : m'.kernel.sched.idle_task ≡ m.kernel.sched.idle_task
  counter : m'.kernel.pid_global ≡ m.kernel.pid_global
  state :
      (m'.kernel.sched.tasks t).current_state
      ≡ (m.kernel.sched.tasks m.kernel.sched.current).current_state
  pid : (m'.kernel.sched.tasks t).pid ≡ (m.kernel.sched.tasks m.kernel.sched.current).pid
  others : (u : ℕ) → u ≢ t → m'.kernel.sched.tasks u ≡ m.kernel.sched.tasks u

Copied-of : (m m' m'' : Machine) (t : ℕ) → m''.kernel ≡ m'.kernel → Copied m m' t → Copied m m'' t
Copied-of m m' m'' t e c = record {
  links = ap (λ (k : Kernel). k.sched.links) e ∙ c.links;
  current = ap (λ (k : Kernel). k.sched.current) e ∙ c.current;
  idle = ap (λ (k : Kernel). k.sched.idle_task) e ∙ c.idle;
  counter = ap (λ (k : Kernel). k.pid_global) e ∙ c.counter;
  state = ap (λ (k : Kernel). (k.sched.tasks t).current_state) e ∙ c.state;
  pid = ap (λ (k : Kernel). (k.sched.tasks t).pid) e ∙ c.pid;
  others = λ u ne. ap (λ (k : Kernel). k.sched.tasks u) e ∙ c.others u ne;
}

fork_start-Copied : (m : Machine) (t : ℕ) → Copied m (fork_start (list_of t) t m) t
unfolding fork_start take_union copy_union give_dir give_heap allocate_dir
fork_start-Copied m t = record {
  links = refl;
  current = refl;
  idle = refl;
  counter = refl;
  state =
      rw (==_refl t)
        (rw ((allocate_heap-same _ _).1) ((take_dir-same (find_dir nr_tasks 0 m.dirs) m.dirs _).1));
  pid =
      rw (==_refl t)
        (rw ((allocate_heap-same _ _).0) ((take_dir-same (find_dir nr_tasks 0 m.dirs) m.dirs _).0));
  others = λ u ne. rw (ne→== ne) refl;
}

-- What sys_fork does if there are frames enough: the result is the child's PID; the child's stack is its
-- parent's, but that it goes on at `ret`.
pub record Forks (ret : ℕ) (m : Machine) (r : ℤ × Machine) (q : Contents) (t : ℕ) (cs : List ℕ)
    : Type 0 where
  pub result : r.0 ≡ m.kernel.pid_global
  pub created : Created m.kernel r.1.kernel q t cs
  pub k_esp : (r.1.kernel.sched.tasks t).k_esp ≡ t + 4 * (kernel_stack_size - 19)
  pub returns : (r.1.kernel.sched.tasks t).stack (kernel_stack_size - 18) ≡ ret

module _ {m : Machine} {q : Contents} {t : ℕ} {ts cs : List ℕ}
    (c : Creator m.kernel q t ts cs) where
  fork_made-Created :
      (ret : ℕ) (frames : List ℕ) (m' : Machine)
      → Copied m m' t
      → Created m.kernel (made_ready t (fork_made ret t frames m')).1.kernel q t cs
  unfolding fork_made made_ready enlist set_frame take_union copy_union
  fork_made-Created ret frames m' d =
      let e = Copied-of m m' (fork_pages t frames m') t (fork_pages-kernel t frames m') d in
      make_ready-Created c (fork_made ret t frames m').kernel (rw (e.links, e.current) refl) e.idle
        e.current (ap (λ x. x +ℤ pos 1) e.counter) (rw (==_refl t) e.counter)
        (rw (==_refl t) e.current) (rw (==_refl t) refl) (rw (==_refl t) (e.state ∙ c.running))
        (λ u ne. rw (ne→== ne) (e.others u ne))

  fork_made-Forks :
      (ret : ℕ) (frames : List ℕ) (m' : Machine)
      → Copied m m' t
      → Forks ret m (made_ready t (fork_made ret t frames m')) q t cs
  unfolding fork_made made_ready enlist set_frame
  fork_made-Forks ret frames m' d =
      let b = fork_made ret t frames m' in
      let pid = ap (λ (k : Kernel). k.pid_global) (fork_pages-kernel t frames m') ∙ d.counter in
      let e = make_ready_task b.kernel.sched t (rw (==_refl t) (rw pid c.next_pid)) in
      record {
        result = rw (made_ready, e) (rw (==_refl t) pid);
        created = fork_made-Created ret frames m' d;
        k_esp = rw (made_ready, e) (rw (==_refl t) refl);
        returns = rw (made_ready, e) (rw (==_refl t) refl);
      }

-- The frames that a child of the running process takes, and the marks that they are taken from.
abbrev pub frames_for : Machine → ℕ → Option (List ℕ) × PhysMem
frames_for m t =
    let started = fork_start (list_of t) t m in
    alloc_frames (pos_part (pos num_pag_data +ℤ heap_of started started.kernel.sched.current)) []
      started.phys_mem

-- With a free descriptor and frames enough, sys_fork of a running process makes a child as `Forks` and
-- `Created` say.
pub sys_fork-Forks :
    (ret : ℕ) (m : Machine) {q : Contents} {t : ℕ} {ts cs frames : List ℕ}
    → Creator m.kernel q t ts cs
    → (frames_for m t).0 ≡ some frames
    → Forks ret m (sys_fork ret m) q t cs
unfolding sys_fork fork_in fork_end
sys_fork-Forks ret m {t} {frames} c enough =
    rw (some_free c, first_free c, list_head_to_task_struct-list_of _ (slot c), enough)
      (fork_made-Forks c ret frames _
        (Copied-of m (fork_start (list_of t) t m) _ t refl (fork_start-Copied m t)))

-- What sys_fork does if there are not frames enough: no mark changes but perhaps that of frame 256, and
-- the descriptor is back in the free queue, at its end, with the PID and the state of the caller. The
-- invariant of the scheduler holds.
pub record ForkFails (m : Machine) (r : ℤ × Machine) (q : Contents) (t : ℕ) : Type 0 where
  pub result : r.0 ≡ enomem
  pub marks : (j : ℕ) → j ≢ num_pag_kernel → r.1.phys_mem j ≡ m.phys_mem j
  pub inv : Inv r.1.kernel.sched (enqueue (take q t) q_free t)
  pub pid : (r.1.kernel.sched.tasks t).pid ≡ (m.kernel.sched.tasks m.kernel.sched.current).pid
  pub state : (r.1.kernel.sched.tasks t).current_state ≡ st_run

fork_start-phys_mem : (m : Machine) (t : ℕ) → (fork_start (list_of t) t m).phys_mem ≡ m.phys_mem
unfolding fork_start give_dir give_heap take_union
fork_start-phys_mem m t = refl

restored :
    (n : ℕ) (mem : PhysMem) (r : Option (List ℕ) × PhysMem)
    → FramesOutcome n mem r
    → r.0 ≡ none
    → (j : ℕ) → j ≢ num_pag_kernel
    → r.1 j ≡ mem j
restored n mem (none, mem') o e = o
restored n mem (some fs, mem') o e = ground (arith, e)

fork_end-ForkFails :
    (ret : ℕ) {m : Machine} {q : Contents} {t : ℕ} {ts cs : List ℕ} (m' : Machine)
    → Creator m.kernel q t ts cs
    → Copied m m' t
    → ((j : ℕ) → j ≢ num_pag_kernel → m'.phys_mem j ≡ m.phys_mem j)
    → ForkFails m (fork_end ret t none m') q t
unfolding fork_end take_union copy_union
fork_end-ForkFails ret {m} {q} {t} m' c d marks = record {
  result = refl;
  marks = marks;
  pid = d.pid;
  state = d.state ∙ c.running;
  inv =
      replace-Inv _ (enqueue (take q t) q_free t) t c.inv back
        (λ k u ne. has-enqueue (take q t) k q_free u t ∙ ground (arith, ne, has-erase_ne u t (q k)))
        (λ k h.
          let e : k ≡ q_free =
            eqb_queue→eq k q_free
              (ground (arith, h, has-enqueue (take q t) k q_free t t, new_out c k)) in
          rw (e, d.state, c.running) refl)
        (λ _. rw (d.state, c.running) tt)
        (new_not_idle c.inv (is_listed c) c.family c.fresh (not_current c)) d.idle d.others;
}
  where
    back :
        Holds
          (list_add_tail m'.kernel.sched.links (list_of t) freequeue)
          (enqueue (take q t) q_free t)
    back =
        subst (λ l. Holds (list_add_tail l (list_of t) freequeue) (enqueue (take q t) q_free t))
          (sym d.links)
          (list_add_tail-enqueue (copied-Holds c.inv (is_listed c) c.family c.fresh (not_current c))
            t q_free (slot c) (new_out c))

-- With a free descriptor but not frames enough, sys_fork of a running process fails as `ForkFails` says.
pub sys_fork-ForkFails :
    (ret : ℕ) (m : Machine) {q : Contents} {t : ℕ} {ts cs : List ℕ}
    → Creator m.kernel q t ts cs
    → (frames_for m t).0 ≡ none
    → ForkFails m (sys_fork ret m) q t
unfolding sys_fork fork_in
sys_fork-ForkFails ret m {t} c short =
    let started = fork_start (list_of t) t m in
    let n = pos_part (pos num_pag_data +ℤ heap_of started started.kernel.sched.current) in
    let f = Copied-of m started _ t refl (fork_start-Copied m t) in
    rw (some_free c, first_free c, list_head_to_task_struct-list_of _ (slot c), short)
      (fork_end-ForkFails ret _ c f λ j ne.
        restored n started.phys_mem (frames_for m t) (alloc_frames-FramesOutcome n started.phys_mem)
          short j ne
        ∙ ap (λ mem. mem j) (fork_start-phys_mem m t))
