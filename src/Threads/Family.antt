-- ===== src/Threads/Family.antt =====
-- The children of a task: the ring at its `fills` of their `parentAnchor` fields.
use so2_joan_erik.Common.{
  ℕ, ◌+◌, ◌-◌, ◌%◌, ◌<◌, ◌≤◌, ◌≡◌, ◌≢◌, inl, inr, subst, Bool-cases, ◌==◌, refl, true, false, ◌&&◌,
  List, [], ◌∷◌, ◌++◌, arith, leb, has, has-append, ap, sym, ◌⊎◌,
}
use so2_joan_erik.Links.{Links, init_list_head, list_add_tail}
use so2_joan_erik.Links.Ring.{
  Ring, Ring-frame, init_list_head-Ring, init_list_head_same, SameAt, list_add_tail_same,
  list_add_tail-Ring,
}
use so2_joan_erik.Task.{IsSlot, fills_of, parent_anchor_of, wait_list_of}
use so2_joan_erik.Sched.Spared.{IsElsewhere}

abbrev pub parent_anchors : List ℕ → List ℕ
parent_anchors [] = []
parent_anchors (t ∷ ts) = parent_anchor_of t ∷ parent_anchors ts

-- The tasks `cs` are the children of `p`, the oldest first.
pub record Children (m : Links) (p : ℕ) (cs : List ℕ) : Type 0 where
  pub ring : Ring m (fills_of p) (parent_anchors cs)
  pub slots : (t : ℕ) → has t cs ≡ true → IsSlot t
  pub parent : IsSlot p

pub has-parent_anchors :
    (a : ℕ) (ts : List ℕ) → has a (parent_anchors ts) ≡ (leb 40 a && has (a - 40) ts)
has-parent_anchors a [] = ground arith
has-parent_anchors a (u ∷ us) = ground (arith, has-parent_anchors a us)

pub parent_anchors-append :
    (ts us : List ℕ) → parent_anchors (ts ++ us) ≡ parent_anchors ts ++ parent_anchors us
parent_anchors-append [] us = refl
parent_anchors-append (t ∷ ts) us = ap (◌∷◌ (parent_anchor_of t)) (parent_anchors-append ts us)

module _ {m : Links} {p : ℕ} {cs : List ℕ} (c : Children m p cs) where
  -- The ring lies off the scheduling queues, and off a task that is not in the family but for its
  -- `parentAnchor` and its `fills`.
  pub ring-IsElsewhere : (a : ℕ) → has a (fills_of p ∷ parent_anchors cs) ≡ true → IsElsewhere a
  ring-IsElsewhere a h =
      ground (
        arith,
        c.parent,
        has-parent_anchors a cs,
        λ (x : has (a - 40) cs ≡ true). c.slots (a - 40) x,
      )

  off_ring : (a : ℕ) → (a < 64) ⊎ (a % 4096 ≡ 8) → has a (fills_of p ∷ parent_anchors cs) ≡ false
  off_ring a h =
      ground (
        arith,
        c.parent,
        has-parent_anchors a cs,
        λ (x : has (a - 40) cs ≡ true). c.slots (a - 40) x,
      )

  -- So it survives what the scheduler does.
  pub Children-elsewhere :
      (m' : Links) → ((a : ℕ) → IsElsewhere a → SameAt m m' a) → Children m' p cs
  Children-elsewhere m' same = record {
    ring = Ring-frame m' c.ring λ a h. same a (ring-IsElsewhere a h);
    slots = c.slots;
    parent = c.parent;
  }

  module _ (t : ℕ) (slot : IsSlot t) (out : has t cs ≡ false) (ne : t ≢ p) where
    child-ne : (u : ℕ) → has u cs ≡ true → u ≢ t
    child-ne u h e = cc (subst (λ x. has x cs ≡ true) e h, out)

    pages_apart : (u v : ℕ) → IsSlot u → u ≢ t → u ≤ v → v < u + 4096 → (v < t) ⊎ (t + 4096 ≤ v)
    pages_apart u v su d lo hi = omega (arith, slot, su, d, lo, hi)

    ring-apart : (a : ℕ) → has a (fills_of p ∷ parent_anchors cs) ≡ true → (a < t) ⊎ (t + 4096 ≤ a)
    ring-apart a h = elim (Bool-cases (a == fills_of p)) [
      | inl e ↦ pages_apart p a c.parent (λ x. ne (sym x)) (ground (arith, e)) (ground (arith, e))
      | inr e ↦
          let i : (leb 40 a && has (a - 40) cs) ≡ true =
            ground (arith, h, e, has-parent_anchors a cs) in
          let k : has (a - 40) cs ≡ true = ground (arith, i) in
          pages_apart (a - 40) a (c.slots (a - 40) k) (child-ne (a - 40) k) (omega arith)
            (ground (arith, i))
    ]

    -- What is written elsewhere than there leaves the family.
    pub Children-same :
        (m' : Links)
        → ((a : ℕ) → IsElsewhere a → (a < t) ⊎ (t + 4096 ≤ a) → SameAt m m' a)
        → Children m' p cs
    Children-same m' same = record {
      ring = Ring-frame m' c.ring λ a h. same a (ring-IsElsewhere a h) (ring-apart a h);
      slots = c.slots;
      parent = c.parent;
    }

    -- A child joins at the end.
    pub join-Children :
        Children (list_add_tail m (parent_anchor_of t) (fills_of p)) p (cs ++ t ∷ [])
    join-Children = record {
      ring = rw (parent_anchors-append cs (t ∷ [])) (
          list_add_tail-Ring c.ring (parent_anchor_of t) (omega arith)
            (ground (arith, slot, c.parent, has-parent_anchors (parent_anchor_of t) cs)));
      slots = λ u h.
          ground (arith, slot, has-append u cs (t ∷ []), λ (x : has u cs ≡ true). c.slots u x);
      parent = c.parent;
    }

    pub join_same :
        (a : ℕ)
        → (a < 64) ⊎ (a % 4096 ≡ 8)
        → SameAt m (list_add_tail m (parent_anchor_of t) (fills_of p)) a
    join_same a h =
        list_add_tail_same c.ring (parent_anchor_of t) a (ground (arith, slot)) (off_ring a h)

  -- The ring has neither the `fills` nor the `waitList` of another task.
  pub off_new :
      (t : ℕ)
      → IsSlot t
      → t ≢ p
      → (a : ℕ) → has a (fills_of p ∷ parent_anchors cs) ≡ true
      → (a ≢ fills_of t) × (a ≢ wait_list_of t)
  off_new t slot ne a h = (
    ground (
      arith,
      slot,
      c.parent,
      ne,
      h,
      has-parent_anchors a cs,
      λ (x : has (a - 40) cs ≡ true). c.slots (a - 40) x,
    ),
    ground (
      arith,
      slot,
      c.parent,
      ne,
      h,
      has-parent_anchors a cs,
      λ (x : has (a - 40) cs ≡ true). c.slots (a - 40) x,
    ),
  )

-- A task whose lists are made new has no children.
pub init_family-Children :
    (l : Links) (t : ℕ)
    → IsSlot t
    → Children (init_list_head (init_list_head l (fills_of t)) (wait_list_of t)) t []
init_family-Children l t slot = record {
  ring = Ring-frame _ (init_list_head-Ring l (fills_of t) (omega arith)) λ a h.
      init_list_head_same (init_list_head l (fills_of t)) (wait_list_of t) a (ground (arith, h));
  slots = λ u h. ground (arith, h);
  parent = slot;
}
