-- ===== src/Semaphore/Destroy.antt =====
-- sys_semDestroy.
use so2_joan_erik.Common.{
  ℕ, zero, suc, ◌+◌, ◌<◌, ◌≤◌, ◌≡◌, refl, ◌≢◌, Bool, true, false, ◌&&◌, [], arith, ◌==◌, ==→eq,
  Bool-cases, inl, inr, ℤ, pos, ◌<ℤ◌, ltb_ℤ, eqb_ℤ, eqb_ℤ→eq, eqb_ℤ_refl,
}
use so2_joan_erik.Links.{list_empty}
use so2_joan_erik.Links.Ring.{list_empty-nil}
use so2_joan_erik.Task.{blocked_threads_of, num_sems}
use so2_joan_erik.Kernel.{Kernel, Run, done, switched, out_of_fuel, Call, and_then}
use so2_joan_erik.Semaphore.{
  minus_one, set_sem, wrong_side, sys_get_pid, drain, destroy_on, destroy_loop,
  sys_sem_destroy_extended,
}
use so2_joan_erik.Semaphore.Waiting.{Waiting}

-- Whatever the call returns, after whatever other tasks do meanwhile, satisfies `P`.
abbrev pub Always : (ℤ → Type 0) → Run ℤ → Type 0
Always P (done a k) = P a
Always P (switched k resume) = (k' : Kernel) → Always P (resume k')
Always P out_of_fuel = Unit {0}

Always-and_then :
    (P : ℤ → Type 0) (m : Run (Unit {0})) (f : Call ℤ)
    → ((k : Kernel) → Always P (f k))
    → Always P (and_then m (λ _. f))
Always-and_then P (done a k) f h = h k
Always-and_then P (switched k resume) f h = λ k'. Always-and_then P (resume k') f h
Always-and_then P out_of_fuel f h = tt

destroy_loop-neg :
    (f n : ℕ) (semid : ℤ) (i : ℕ) (k : Kernel)
    → Always (λ a. a <ℤ pos 0) (destroy_loop f n semid i k)
unfolding destroy_loop destroy_on
destroy_loop-neg f zero semid i k = omega arith
destroy_loop-neg f (suc n) semid i k = elim (Bool-cases (eqb_ℤ (k.semaphores i).id semid)) [
  | inr miss ↦ rw miss (destroy_loop-neg f n semid (i + 1) k)
  | inl hit ↦ rw hit (elim (Bool-cases (k.semaphores i).free) [
    | inl free ↦ rw free (omega arith)
    | inr used ↦ rw used (elim (Bool-cases (eqb_ℤ (sys_get_pid k) (k.semaphores i).creator_pid)) [
      | inr other ↦ rw other (omega arith)
      | inl own ↦ rw own (
          Always-and_then (λ a. a <ℤ pos 0) (drain f i k) _
            (λ k'. destroy_loop-neg f n semid (i + 1) _))
    ])
  ])
]

-- sys_semDestroy never reports success: whatever it returns is negative, also where it destroyed the
-- semaphore.
pub sys_sem_destroy-neg :
    (fuel : ℕ) (semid : ℤ) (user : Bool) (k : Kernel)
    → Always (λ a. a <ℤ pos 0) (sys_sem_destroy_extended fuel semid user k)
unfolding sys_sem_destroy_extended
sys_sem_destroy-neg fuel semid user k = elim (Bool-cases (user && ltb_ℤ semid (pos 100000))) [
  | inl h ↦ rw h (omega arith)
  | inr h ↦ rw h (destroy_loop-neg fuel num_sems semid 0 k)
]

destroy_loop-rest :
    (f n : ℕ) (semid : ℤ) (i : ℕ) (k : Kernel)
    → ((l : ℕ) → i ≤ l → (k.semaphores l).id ≢ semid)
    → destroy_loop f n semid i k ≡ done minus_one k
unfolding destroy_loop
destroy_loop-rest f zero semid i k h = refl
destroy_loop-rest f (suc n) semid i k h = elim (Bool-cases (eqb_ℤ (k.semaphores i).id semid)) [
  | inl hit ↦ absurd (h i (omega arith) (eqb_ℤ→eq (k.semaphores i).id semid hit))
  | inr miss ↦ rw miss (destroy_loop-rest f n semid (i + 1) k λ l lo. h l (omega arith))
]

-- An entry whose identifier no other entry has, in use by the caller and with no waiters, is freed.
destroy_loop-at :
    (f n i j : ℕ) (k : Kernel)
    → i ≤ j
    → j < i + n
    → ((l : ℕ) → l ≢ j → (k.semaphores l).id ≢ (k.semaphores j).id)
    → (k.semaphores j).free ≡ false
    → (k.semaphores j).creator_pid ≡ sys_get_pid k
    → Waiting k.sched.links j []
    → destroy_loop (suc f) n (k.semaphores j).id i k
      ≡ done minus_one (set_sem k j (record (k.semaphores j) { free = true }))
unfolding destroy_loop destroy_on drain
destroy_loop-at f zero i j k lo hi unique used own w = absurd (omega arith)
destroy_loop-at f (suc n) i j k lo hi unique used own w = elim (Bool-cases (i == j)) [
  | inl e ↦
      let p : i ≡ j = ==→eq i j e in
      let mine : eqb_ℤ (sys_get_pid k) (k.semaphores j).creator_pid ≡ true =
        rw own (eqb_ℤ_refl (sys_get_pid k)) in
      let empty : list_empty k.sched.links (blocked_threads_of j) ≡ true = list_empty-nil w.ring in
      rw (p, eqb_ℤ_refl (k.semaphores j).id, used, mine, empty)
        (destroy_loop-rest (suc f) n (k.semaphores j).id (j + 1) _
          λ l after. ground (arith, unique l (omega arith)))
  | inr e ↦ elim (Bool-cases (eqb_ℤ (k.semaphores i).id (k.semaphores j).id)) [
    | inl h ↦ absurd (unique i (ground arith) (eqb_ℤ→eq (k.semaphores i).id (k.semaphores j).id h))
    | inr h ↦ rw h (destroy_loop-at f n (i + 1) j k (ground arith) (omega arith) unique used own w)
  ]
]

-- For a semaphore in use that the caller created, with an identifier that no other entry has and
-- with no waiters, sys_semDestroy frees the entry and changes nothing else (and returns -1).
pub sys_sem_destroy-frees :
    (f j : ℕ) (user : Bool) (k : Kernel)
    → wrong_side (k.semaphores j).id user ≡ false
    → ((l : ℕ) → l ≢ j → (k.semaphores l).id ≢ (k.semaphores j).id)
    → (k.semaphores j).free ≡ false
    → (k.semaphores j).creator_pid ≡ sys_get_pid k
    → Waiting k.sched.links j []
    → sys_sem_destroy_extended (suc f) (k.semaphores j).id user k
      ≡ done minus_one (set_sem k j (record (k.semaphores j) { free = true }))
unfolding sys_sem_destroy_extended
sys_sem_destroy-frees f j true k side unique used own w =
    rw side (destroy_loop-at f num_sems 0 j k (omega arith) w.index unique used own w)
sys_sem_destroy-frees f j false k side unique used own w =
    destroy_loop-at f num_sems 0 j k (omega arith) w.index unique used own w
