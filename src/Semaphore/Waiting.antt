-- ===== src/Semaphore/Waiting.antt =====
-- The queue of a semaphore: the ring at its list head of the `semList` fields of the waiting tasks.
use so2_joan_erik.Common.{
  ℕ, ◌-◌, ◌%◌, ◌<◌, ◌≡◌, refl, true, false, ◌&&◌, List, [], ◌∷◌, ◌++◌, arith, leb, has, has-append,
  subst, ap, ◌⊎◌, ==_refl,
}
use so2_joan_erik.Links.{Links, list_add_tail, list_del, list_first}
use so2_joan_erik.Links.Ring.{
  Ring, Ring-frame, SameAt, list_del_same, list_add_tail_same, list_del-Ring, list_add_tail-Ring,
  list_first-head_or,
}
use so2_joan_erik.Task.{IsSlot, sem_list_of, blocked_threads_of, num_sems, list_head_to_task_struct}
use so2_joan_erik.Sched.Spared.{IsElsewhere}

abbrev pub sem_anchors : List ℕ → List ℕ
sem_anchors [] = []
sem_anchors (t ∷ ts) = sem_list_of t ∷ sem_anchors ts

-- The tasks `ws` wait on the semaphore `j`, the oldest first.
pub record Waiting (m : Links) (j : ℕ) (ws : List ℕ) : Type 0 where
  pub ring : Ring m (blocked_threads_of j) (sem_anchors ws)
  pub slots : (t : ℕ) → has t ws ≡ true → IsSlot t
  pub index : j < num_sems

has-sem_anchors : (a : ℕ) (ts : List ℕ) → has a (sem_anchors ts) ≡ (leb 64 a && has (a - 64) ts)
has-sem_anchors a [] = ground arith
has-sem_anchors a (u ∷ us) = ground (arith, has-sem_anchors a us)

sem_anchors-append : (ts us : List ℕ) → sem_anchors (ts ++ us) ≡ sem_anchors ts ++ sem_anchors us
sem_anchors-append [] us = refl
sem_anchors-append (t ∷ ts) us = ap (◌∷◌ (sem_list_of t)) (sem_anchors-append ts us)

pub list_head_to_task_struct-sem_list_of :
    (t : ℕ) → IsSlot t → list_head_to_task_struct (sem_list_of t) ≡ t
unfolding list_head_to_task_struct
list_head_to_task_struct-sem_list_of t h = omega arith

module _ {m : Links} {j : ℕ} {ws : List ℕ} (w : Waiting m j ws) where
  -- The ring lies off the scheduling queues.
  ring-IsElsewhere : (a : ℕ) → has a (blocked_threads_of j ∷ sem_anchors ws) ≡ true → IsElsewhere a
  ring-IsElsewhere a h =
      ground
        (arith, w.index, has-sem_anchors a ws, λ (x : has (a - 64) ws ≡ true). w.slots (a - 64) x)

  off_ring :
      (a : ℕ) → (a < 64) ⊎ (a % 4096 ≡ 8) → has a (blocked_threads_of j ∷ sem_anchors ws) ≡ false
  off_ring a h =
      ground
        (arith, w.index, has-sem_anchors a ws, λ (x : has (a - 64) ws ≡ true). w.slots (a - 64) x)

  -- So it survives what the scheduler does.
  pub Waiting-same : (m' : Links) → ((a : ℕ) → IsElsewhere a → SameAt m m' a) → Waiting m' j ws
  Waiting-same m' same = record {
    ring = Ring-frame m' w.ring λ a h. same a (ring-IsElsewhere a h);
    slots = w.slots;
    index = w.index;
  }

  module _ (t : ℕ) (slot : IsSlot t) (out : has t ws ≡ false) where
    -- A task joins at the end.
    pub join-Waiting :
        Waiting (list_add_tail m (sem_list_of t) (blocked_threads_of j)) j (ws ++ t ∷ [])
    join-Waiting = record {
      ring = rw (sem_anchors-append ws (t ∷ [])) (
          list_add_tail-Ring w.ring (sem_list_of t) (omega arith)
            (ground (arith, slot, w.index, has-sem_anchors (sem_list_of t) ws)));
      slots = λ u h.
          ground (arith, slot, has-append u ws (t ∷ []), λ (x : has u ws ≡ true). w.slots u x);
      index = w.index;
    }

    pub join_same :
        (a : ℕ)
        → (a < 64) ⊎ (a % 4096 ≡ 8)
        → SameAt m (list_add_tail m (sem_list_of t) (blocked_threads_of j)) a
    join_same a h =
        list_add_tail_same w.ring (sem_list_of t) a (ground (arith, slot)) (off_ring a h)

-- The oldest leaves.
module _ {m : Links} {j t : ℕ} {ws : List ℕ} (w : Waiting m j (t ∷ ws)) where
  pub first-IsSlot : IsSlot t
  first-IsSlot = w.slots t (ground arith)

  pub list_first-oldest : list_first m (blocked_threads_of j) ≡ sem_list_of t
  list_first-oldest = list_first-head_or w.ring

  pub leave-Waiting : Waiting (list_del m (sem_list_of t)) j ws
  leave-Waiting = record {
    ring =
        subst (Ring (list_del m (sem_list_of t)) (blocked_threads_of j))
          (rw (==_refl (sem_list_of t)) refl) (list_del-Ring w.ring (sem_list_of t) (ground arith));
    slots = λ u h. w.slots u (ground arith);
    index = w.index;
  }

  pub leave_same : (a : ℕ) → (a < 64) ⊎ (a % 4096 ≡ 8) → SameAt m (list_del m (sem_list_of t)) a
  leave_same a h = list_del_same w.ring (sem_list_of t) a (ground arith) (off_ring w a h)
