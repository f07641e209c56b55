-- ===== src/Semaphore/Create.antt =====
-- sys_semCreate: which entry is taken, and that the other calls find it.
use so2_joan_erik.Common.{
  ℕ, zero, suc, ◌+◌, ◌<◌, ◌≤◌, ◌≡◌, refl, ◌≢◌, Bool, true, false, [], arith, ◌==◌, if◌then◌else◌,
  ==→eq, Bool-cases, sym, ap, ◌∙◌, inl, inr, ==_refl, ne→==, some, ℤ, pos, ◌+ℤ◌, eqb_ℤ, eqb_ℤ→eq,
  eqb_ℤ_refl,
}
use so2_joan_erik.Links.Ring.{init_list_head-Ring}
use so2_joan_erik.Task.{blocked_threads_of, num_sems}
use so2_joan_erik.Kernel.{Semaphore, Kernel}
use so2_joan_erik.Semaphore.{minus_one, find_sem, sem_init, create_loop, sys_sem_create_extended}
use so2_joan_erik.Semaphore.Waiting.{Waiting}

-- The first free entry is `j`.
pub record FirstFree (k : Kernel) (j : ℕ) : Type 0 where
  pub index : j < num_sems
  pub is_free : (k.semaphores j).free ≡ true
  pub before : (i : ℕ) → i < j → (k.semaphores i).free ≡ false

-- The identifier that the next semaphore gets.
abbrev pub fresh_id : Kernel → Bool → ℤ
fresh_id k user = if user then k.sem_id_global else k.sem_id_system

create_loop-first :
    (n i j : ℕ) (v : ℤ) (user : Bool) (k : Kernel)
    → i ≤ j
    → j < i + n
    → (k.semaphores j).free ≡ true
    → ((l : ℕ) → l < j → (k.semaphores l).free ≡ false)
    → create_loop n v user i k ≡ sem_init v user j k
unfolding create_loop
create_loop-first zero i j v user k lo hi free before = absurd (omega arith)
create_loop-first (suc n) i j v user k lo hi free before = elim (Bool-cases (i == j)) [
  | inl e ↦ let p : i ≡ j = ==→eq i j e in rw (p, free) refl
  | inr e ↦
      rw (before i (ground arith))
        (create_loop-first n (i + 1) j v user k (ground arith) (omega arith) free before)
]

create_loop-none :
    (n i : ℕ) (v : ℤ) (user : Bool) (k : Kernel)
    → ((l : ℕ) → l < i + n → (k.semaphores l).free ≡ false)
    → create_loop n v user i k ≡ (minus_one, k)
unfolding create_loop
create_loop-none zero i v user k used = refl
create_loop-none (suc n) i v user k used =
    rw (used i (omega arith)) (create_loop-none n (i + 1) v user k λ l h. used l (omega arith))

pub find_sem-first :
    (n i j : ℕ) (semid : ℤ) (k : Kernel)
    → i ≤ j
    → j < i + n
    → (k.semaphores j).id ≡ semid
    → ((l : ℕ) → l < j → (k.semaphores l).id ≢ semid)
    → find_sem n semid i k ≡ some j
unfolding find_sem
find_sem-first zero i j semid k lo hi hit before = absurd (omega arith)
find_sem-first (suc n) i j semid k lo hi hit before = elim (Bool-cases (i == j)) [
  | inl e ↦ let p : i ≡ j = ==→eq i j e in rw (p, hit, eqb_ℤ_refl semid) refl
  | inr e ↦ elim (Bool-cases (eqb_ℤ (k.semaphores i).id semid)) [
    | inl h ↦ absurd (before i (ground arith) (eqb_ℤ→eq (k.semaphores i).id semid h))
    | inr h ↦ rw h (find_sem-first n (i + 1) j semid k (ground arith) (omega arith) hit before)
  ]
]

-- A semaphore made at the free entry `j`: its identifier is the counter, which goes on by one; the
-- entry has the value and the creator asked for and an empty queue; no other entry changes; and the
-- loops of the other calls find it by its identifier.
pub record Created (k : Kernel) (v : ℤ) (user : Bool) (j : ℕ) (r : ℤ × Kernel) : Type 0 where
  pub result : r.0 ≡ fresh_id k user
  pub counter : fresh_id r.1 user ≡ fresh_id k user +ℤ pos 1
  pub value : (r.1.semaphores j).value ≡ v
  pub in_use : (r.1.semaphores j).free ≡ false
  pub creator : (r.1.semaphores j).creator_pid ≡ (k.sched.tasks k.sched.current).pid
  pub queue : Waiting r.1.sched.links j []
  pub others : (i : ℕ) → i ≢ j → r.1.semaphores i ≡ k.semaphores i
  pub found : find_sem num_sems r.0 0 r.1 ≡ some j

init_blocks :
    (k : Kernel) (v : ℤ) (user : Bool) (j : ℕ)
    → j < num_sems
    → Waiting (sem_init v user j k).1.sched.links j []
unfolding sem_init
init_blocks k v true j h = record {
  ring = init_list_head-Ring k.sched.links (blocked_threads_of j) (omega arith);
  slots = λ t e. ground (arith, e);
  index = h;
}
init_blocks k v false j h = record {
  ring = init_list_head-Ring k.sched.links (blocked_threads_of j) (omega arith);
  slots = λ t e. ground (arith, e);
  index = h;
}

init_id :
    (k : Kernel) (v : ℤ) (user : Bool) (j : ℕ)
    → ((sem_init v user j k).1.semaphores j).id ≡ fresh_id k user
unfolding sem_init
init_id k v true j = ground arith
init_id k v false j = ground arith

init_others :
    (k : Kernel) (v : ℤ) (user : Bool) (j i : ℕ)
    → i ≢ j
    → (sem_init v user j k).1.semaphores i ≡ k.semaphores i
unfolding sem_init
init_others k v true j i ne = rw (ne→== ne) refl
init_others k v false j i ne = rw (ne→== ne) refl

init_result : (k : Kernel) (v : ℤ) (user : Bool) (j : ℕ) → (sem_init v user j k).0 ≡ fresh_id k user
unfolding sem_init
init_result k v true j = refl
init_result k v false j = refl

abbrev InitFields : Kernel → ℤ → Bool → ℕ → Type 0
InitFields k v user j =
    let r = sem_init v user j k in
    (fresh_id r.1 user ≡ fresh_id k user +ℤ pos 1)
    × ((r.1.semaphores j).value ≡ v)
    × ((r.1.semaphores j).free ≡ false)
    × ((r.1.semaphores j).creator_pid ≡ (k.sched.tasks k.sched.current).pid)

init_fields : (k : Kernel) (v : ℤ) (user : Bool) (j : ℕ) → InitFields k v user j
unfolding sem_init
init_fields k v true j = rw (==_refl j) (refl, refl, refl, refl)
init_fields k v false j = rw (==_refl j) (refl, refl, refl, refl)

init-Created :
    (k : Kernel) (v : ℤ) (user : Bool) (j : ℕ)
    → j < num_sems
    → ((l : ℕ) → l < j → (k.semaphores l).id ≢ fresh_id k user)
    → Created k v user j (sem_init v user j k)
init-Created k v user j lo new = record {
  result = init_result k v user j;
  counter = f.0;
  value = f.1;
  in_use = f.2;
  creator = f.3;
  queue = init_blocks k v user j lo;
  others = init_others k v user j;
  found = rw (init_result k v user j) (
      find_sem-first num_sems 0 j (fresh_id k user) _ (omega arith) lo (init_id k v user j) λ l h e.
        new l h (sym (ap (λ (x : Semaphore). x.id) (init_others k v user j l (omega arith))) ∙ e));
}
  where
    f : InitFields k v user j
    f = init_fields k v user j

-- With a first free entry and an identifier that no entry before it has, sys_semCreate makes a
-- semaphore at that entry, as `Created` says.
pub sys_sem_create-Created :
    (k : Kernel) (v : ℤ) (user : Bool) (j : ℕ)
    → FirstFree k j
    → ((l : ℕ) → l < j → (k.semaphores l).id ≢ fresh_id k user)
    → Created k v user j (sys_sem_create_extended v user k)
unfolding sys_sem_create_extended
sys_sem_create-Created k v user j f new =
    rw (create_loop-first num_sems 0 j v user k (omega arith) f.index f.is_free f.before)
      (init-Created k v user j f.index new)

-- With no free entry it returns -1 and changes nothing.
pub sys_sem_create_full :
    (k : Kernel) (v : ℤ) (user : Bool)
    → ((l : ℕ) → l < num_sems → (k.semaphores l).free ≡ false)
    → sys_sem_create_extended v user k ≡ (minus_one, k)
unfolding sys_sem_create_extended
sys_sem_create_full k v user used = create_loop-none num_sems 0 v user k used
