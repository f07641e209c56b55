-- ===== src/Task/Count.antt =====
-- There are ten tasks.
use so2_joan_erik.Common.{
  ℕ, zero, suc, ◌+◌, ◌*◌, ◌<◌, ◌≤◌, ◌≡◌, ◌≢◌, true, List, [], ◌∷◌, arith, length, has, erase,
  Distinct, has-erase-false, has-erase_self, Distinct-erase, subst,
}
use so2_joan_erik.Task.{IsSlot, task_base, nr_tasks}

length-erase : (e : ℕ) (xs : List ℕ) → length xs ≤ suc (length (erase e xs))
length-erase e [] = omega arith
length-erase e (x ∷ xs) = ground (arith, length-erase e xs)

erase-has : (t u : ℕ) (xs : List ℕ) → has u (erase t xs) ≡ true → has u xs ≡ true
erase-has t u xs h = ground (arith, has-erase-false u t xs)

slots_below :
    (n : ℕ) (ts : List ℕ)
    → Distinct ts
    → ((t : ℕ) → has t ts ≡ true → IsSlot t)
    → ((t : ℕ) → has t ts ≡ true → t < task_base + 4096 * n)
    → length ts ≤ n
slots_below zero [] d slots below = omega arith
slots_below zero (t ∷ ts) d slots below =
    absurd (omega (arith, slots t (ground arith), below t (ground arith)))
slots_below (suc n) ts d slots below =
    let last : ℕ = task_base + 4096 * n in
    let ih : length (erase last ts) ≤ n =
      slots_below n (erase last ts) (Distinct-erase last ts d)
        (λ t h. slots t (erase-has last t ts h))
        (λ t h.
          let s : IsSlot t = slots t (erase-has last t ts h) in
          let b : t < task_base + 4096 * suc n = below t (erase-has last t ts h) in
          let ne : t ≢ last =
            λ e. cc (has-erase_self last ts d, subst (λ x. has x (erase last ts) ≡ true) e h) in
          omega (arith, s, b, ne)) in
    omega (arith, ih, length-erase last ts)

-- Different tasks are at most ten.
pub length-slots :
    (ts : List ℕ) → Distinct ts → ((t : ℕ) → has t ts ≡ true → IsSlot t) → length ts ≤ nr_tasks
length-slots ts d slots = slots_below 10 ts d slots λ t h. omega (arith, slots t h)
