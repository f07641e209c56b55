-- ===== src/Exit/Waiting.antt =====
-- Those that wait for a task: the ring at its `waitList` of their `waitAnchor` fields.
use so2_joan_erik.Common.{
  ℕ, ◌-◌, ◌%◌, ◌<◌, ◌≡◌, refl, true, false, List, [], ◌∷◌, ◌++◌, arith, has, Distinct, ap, ◌⊎◌,
  ◌&&◌, leb, has-append,
}
use so2_joan_erik.Links.{Links, list_add_tail}
use so2_joan_erik.Links.Ring.{Ring, Ring-frame, SameAt, list_add_tail-Ring, list_add_tail_same}
use so2_joan_erik.Task.{IsSlot, wait_list_of, wait_anchor_of, list_head_to_task_struct}
use so2_joan_erik.Sched.Spared.{IsElsewhere}

abbrev pub wait_anchors : List ℕ → List ℕ
wait_anchors [] = []
wait_anchors (t ∷ ts) = wait_anchor_of t ∷ wait_anchors ts

-- The tasks `ws` wait for `t`, the oldest first: the ring at its `waitList` of their `waitAnchor`.
pub record WaitsFor (m : Links) (t : ℕ) (ws : List ℕ) : Type 0 where
  pub ring : Ring m (wait_list_of t) (wait_anchors ws)
  pub slots : (w : ℕ) → has w ws ≡ true → IsSlot w
  pub slot : IsSlot t

pub has-wait_anchors :
    (a : ℕ) (ts : List ℕ) → has a (wait_anchors ts) ≡ (leb 56 a && has (a - 56) ts)
has-wait_anchors a [] = ground arith
has-wait_anchors a (u ∷ us) = ground (arith, has-wait_anchors a us)

pub list_head_to_task_struct-wait_anchor_of :
    (t : ℕ) → IsSlot t → list_head_to_task_struct (wait_anchor_of t) ≡ t
unfolding list_head_to_task_struct
list_head_to_task_struct-wait_anchor_of t h = omega arith

pub Distinct-wait_anchors : (ts : List ℕ) → Distinct (wait_anchors ts) → Distinct ts
Distinct-wait_anchors [] d = tt
Distinct-wait_anchors (t ∷ ts) d =
    ground (arith, has-wait_anchors (wait_anchor_of t) ts, Distinct-wait_anchors ts d.1)

-- Neither a scheduling queue nor a family is on the ring.
abbrev pub IsOffWaits : ℕ → Type 0
IsOffWaits a = (a < 64) ⊎ ((a % 4096 ≡ 8) ⊎ ((a % 4096 ≡ 32) ⊎ (a % 4096 ≡ 40)))

module _ {m : Links} {t : ℕ} {ws : List ℕ} (f : WaitsFor m t ws) where
  ring-IsElsewhere : (a : ℕ) → has a (wait_list_of t ∷ wait_anchors ws) ≡ true → IsElsewhere a
  ring-IsElsewhere a h =
      ground
        (arith, f.slot, has-wait_anchors a ws, λ (x : has (a - 56) ws ≡ true). f.slots (a - 56) x)

  pub off_ring : (a : ℕ) → IsOffWaits a → has a (wait_list_of t ∷ wait_anchors ws) ≡ false
  off_ring a h =
      ground
        (arith, f.slot, has-wait_anchors a ws, λ (x : has (a - 56) ws ≡ true). f.slots (a - 56) x)

  -- It survives what spares the two fields of tasks that it is at.
  pub WaitsFor-frame :
      (m' : Links)
      → ((a : ℕ) → (a % 4096 ≡ 48) ⊎ (a % 4096 ≡ 56) → SameAt m m' a)
      → WaitsFor m' t ws
  WaitsFor-frame m' same = record {
    ring = Ring-frame m' f.ring λ a h. same a (
        ground (
          arith,
          f.slot,
          h,
          has-wait_anchors a ws,
          λ (x : has (a - 56) ws ≡ true). f.slots (a - 56) x,
        ));
    slots = f.slots;
    slot = f.slot;
  }

  pub WaitsFor-same : (m' : Links) → ((a : ℕ) → IsElsewhere a → SameAt m m' a) → WaitsFor m' t ws
  WaitsFor-same m' same = record {
    ring = Ring-frame m' f.ring λ a h. same a (ring-IsElsewhere a h);
    slots = f.slots;
    slot = f.slot;
  }

wait_anchors-append :
    (ts us : List ℕ) → wait_anchors (ts ++ us) ≡ wait_anchors ts ++ wait_anchors us
wait_anchors-append [] us = refl
wait_anchors-append (t ∷ ts) us = ap (◌∷◌ (wait_anchor_of t)) (wait_anchors-append ts us)

-- A task that does not wait for `t` joins at the end.
module _ {m : Links} {t : ℕ} {ws : List ℕ} (f : WaitsFor m t ws) (w : ℕ) (slot : IsSlot w)
    (out : has w ws ≡ false) where
  pub join-WaitsFor :
      WaitsFor (list_add_tail m (wait_anchor_of w) (wait_list_of t)) t (ws ++ w ∷ [])
  join-WaitsFor = record {
    ring = rw (wait_anchors-append ws (w ∷ [])) (
        list_add_tail-Ring f.ring (wait_anchor_of w) (omega arith)
          (ground (arith, slot, f.slot, out, has-wait_anchors (wait_anchor_of w) ws)));
    slots =
        λ u h. ground (arith, slot, has-append u ws (w ∷ []), λ (x : has u ws ≡ true). f.slots u x);
    slot = f.slot;
  }

  pub join_same :
      (a : ℕ) → IsOffWaits a → SameAt m (list_add_tail m (wait_anchor_of w) (wait_list_of t)) a
  join_same a h =
      list_add_tail_same f.ring (wait_anchor_of w) a (ground (arith, slot, h)) (off_ring f a h)
