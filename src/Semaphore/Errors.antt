-- ===== src/Semaphore/Errors.antt =====
-- The calls of the semaphores that end without a queue: errors, and a wait or a signal that nobody
-- has to stop or wake for.
use so2_joan_erik.Common.{
  ℕ, zero, suc, ◌+◌, ◌<◌, ◌≡◌, refl, ◌≢◌, Bool, true, false, arith, ==_refl, Bool-cases, inl, inr,
  none, some, ℤ, pos, ◌+ℤ◌, ◌-ℤ◌, leb_ℤ, is_neg, eqb_ℤ, eqb_ℤ→eq,
}
use so2_joan_erik.Task.{num_sems}
use so2_joan_erik.Kernel.{Kernel, done}
use so2_joan_erik.Semaphore.{
  einval, minus_one, set_sem, find_sem, wrong_side, sys_sem_wait_extended, wait_on, wait_live,
  sys_sem_signal_extended, signal_on, signal_live,
}

find_sem-none :
    (n i : ℕ) (semid : ℤ) (k : Kernel)
    → ((l : ℕ) → l < i + n → (k.semaphores l).id ≢ semid)
    → find_sem n semid i k ≡ none
unfolding find_sem
find_sem-none zero i semid k h = refl
find_sem-none (suc n) i semid k h = elim (Bool-cases (eqb_ℤ (k.semaphores i).id semid)) [
  | inl e ↦ absurd (h i (omega arith) (eqb_ℤ→eq (k.semaphores i).id semid e))
  | inr e ↦ rw e (find_sem-none n (i + 1) semid k λ l lt. h l (omega arith))
]

-- An identifier on the side of 100000 that the mode allows and that no entry has: both calls return
-- -1 and change nothing.
pub sys_sem_missing :
    (semid : ℤ) (user : Bool) (k : Kernel)
    → wrong_side semid user ≡ false
    → ((l : ℕ) → l < num_sems → (k.semaphores l).id ≢ semid)
    → (sys_sem_wait_extended semid user k ≡ done minus_one k)
      × (sys_sem_signal_extended semid user k ≡ done minus_one k)
unfolding sys_sem_wait_extended sys_sem_signal_extended
sys_sem_missing semid user k w h = rw (w, find_sem-none num_sems 0 semid k h) (refl, refl)

-- An identifier whose first entry is free changes nothing: both calls return -EINVAL.
pub sys_sem_freed :
    (semid : ℤ) (user : Bool) (k : Kernel) (j : ℕ)
    → wrong_side semid user ≡ false
    → find_sem num_sems semid 0 k ≡ some j
    → (k.semaphores j).free ≡ true
    → (sys_sem_wait_extended semid user k ≡ done einval k)
      × (sys_sem_signal_extended semid user k ≡ done einval k)
unfolding sys_sem_wait_extended wait_on sys_sem_signal_extended signal_on
sys_sem_freed semid user k j w found free = rw (w, found, free) (refl, refl)

-- The state with another value in the entry `j`.
abbrev pub with_value : Kernel → ℕ → ℤ → Kernel
with_value k j v = let sem = k.semaphores j in set_sem k j (record sem { value = v; free = false })

-- On an entry in use, a wait that leaves the value at 0 or more lowers it by one and returns the
-- creator's PID at once: no other entry, no queue and no task changes.
pub sys_sem_wait_passes :
    (semid : ℤ) (user : Bool) (k : Kernel) (j : ℕ)
    → wrong_side semid user ≡ false
    → find_sem num_sems semid 0 k ≡ some j
    → (k.semaphores j).free ≡ false
    → is_neg ((k.semaphores j).value -ℤ pos 1) ≡ false
    → sys_sem_wait_extended semid user k
      ≡ done (k.semaphores j).creator_pid (with_value k j ((k.semaphores j).value -ℤ pos 1))
unfolding sys_sem_wait_extended wait_on wait_live
sys_sem_wait_passes semid user k j w found used v = rw (w, found, used, v, ==_refl j) refl

-- On an entry in use, a signal that brings the value above 0 raises it by one and returns it: no
-- other entry, no queue and no task changes.
pub sys_sem_signal_passes :
    (semid : ℤ) (user : Bool) (k : Kernel) (j : ℕ)
    → wrong_side semid user ≡ false
    → find_sem num_sems semid 0 k ≡ some j
    → (k.semaphores j).free ≡ false
    → leb_ℤ ((k.semaphores j).value +ℤ pos 1) (pos 0) ≡ false
    → sys_sem_signal_extended semid user k
      ≡ done ((k.semaphores j).value +ℤ pos 1) (with_value k j ((k.semaphores j).value +ℤ pos 1))
unfolding sys_sem_signal_extended signal_on signal_live
sys_sem_signal_passes semid user k j w found used v = rw (w, found, used, v, ==_refl j) refl
