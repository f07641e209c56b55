-- ===== src/Threads/Placed.antt =====
-- A new task: the links after its descriptor has left the free queue, been overwritten and joined
-- its parent's children; and the queues that they hold.
use so2_joan_erik.Common.{
  ℕ, ◌+◌, ◌-◌, ◌<◌, ◌≤◌, ◌≡◌, ◌≢◌, ◌⊎◌, true, false, List, [], ◌∷◌, ◌++◌, arith, has, has-erase_ne,
  sym, subst, ◌∙◌,
}
use so2_joan_erik.Links.{Links, init_list_head, list_add_tail, list_del}
use so2_joan_erik.Links.Ring.{Ring-frame, SameAt, init_list_head_same, list_del_same}
use so2_joan_erik.Task.{IsSlot, list_of, fills_of, parent_anchor_of, wait_list_of, st_run}
use so2_joan_erik.Sched.{Sched}
use so2_joan_erik.Sched.Queues.{
  Queue, q_free, head_of-lt, Contents, Holds, ring_of, has-anchors_sub, has-anchors, take, Unlisted,
  list_del-take,
}
use so2_joan_erik.Sched.Invariant.{Inv, Unlisted-take}
use so2_joan_erik.Sched.Alike.{replace-Inv}
use so2_joan_erik.Sched.Spared.{ring_of-elsewhere, Holds-elsewhere}
use so2_joan_erik.Threads.{copy_anchor, copy_anchors}
use so2_joan_erik.Threads.Family.{
  Children, init_family-Children, Children-same, join-Children, join_same, off_new,
}

abbrev pub family_links : Sched → ℕ → Links
family_links s t =
    let l = copy_anchors (list_del s.links (list_of t)) s.current t in
    init_list_head
      (init_list_head (list_add_tail l (parent_anchor_of t) (fills_of s.current)) (fills_of t))
      (wait_list_of t)

abbrev pub copied_links : Sched → ℕ → Links
copied_links s t = copy_anchors (list_del s.links (list_of t)) s.current t

abbrev joined_links : Sched → ℕ → Links
joined_links s t = list_add_tail (copied_links s t) (parent_anchor_of t) (fills_of s.current)

copy_anchors_same :
    (l : Links) (a t x : ℕ) → (x < t) ⊎ (t + 4096 ≤ x) → SameAt l (copy_anchors l a t) x
unfolding copy_anchors copy_anchor
copy_anchors_same l a t x off = (ground arith, ground arith)

Holds-apart :
    {m : Links} (m' : Links) {q : Contents} (t : ℕ)
    → Holds m q
    → IsSlot t
    → Unlisted q t
    → ((a : ℕ) → (a < t) ⊎ (t + 4096 ≤ a) → SameAt m m' a)
    → Holds m' q
Holds-apart m' {q} t h slot out same = record {
  rings = λ k. Ring-frame m' (h.rings k) λ a i. same a (at k a i);
  slots = h.slots;
  apart = h.apart;
}
  where
    pages : (k : Queue) (u : ℕ) → has u (q k) ≡ true → (u + 8 < t) ⊎ (t + 4096 ≤ u + 8)
    pages k u i =
        let ne : u ≢ t = λ e. cc (subst (λ x. has x (q k) ≡ true) e i, out k) in
        omega (arith, slot, h.slots k u i, ne)

    at : (k : Queue) (a : ℕ) → has a (ring_of q k) ≡ true → (a < t) ⊎ (t + 4096 ≤ a)
    at k a i = ground (
      arith,
      slot,
      head_of-lt k,
      has-anchors_sub a (q k),
      λ (x : has (a - 8) (q k) ≡ true). pages k (a - 8) x,
    )

module _ {s : Sched} {q : Contents} {t : ℕ} {cs : List ℕ} (i : Inv s q)
    (listed : has t (q q_free) ≡ true) (c : Children s.links s.current cs) (out : has t cs ≡ false)
    (ne : t ≢ s.current) where
  pub new-IsSlot : IsSlot t
  new-IsSlot = i.holds.slots q_free t listed

  pub new-Unlisted : Unlisted (take q t) t
  new-Unlisted = Unlisted-take i.holds t

  copied-Children : Children (copied_links s t) s.current cs
  copied-Children = Children-same c t new-IsSlot out ne (copied_links s t) λ a e off.
      let d =
        list_del_same (i.holds.rings q_free) (list_of t) a (rw (has-anchors t (q q_free)) listed)
          (ring_of-elsewhere i.holds q_free a e) in
      let p = copy_anchors_same (list_del s.links (list_of t)) s.current t a off in
      (p.0 ∙ d.0, p.1 ∙ d.1)

  -- The links once the descriptor is overwritten.
  pub copied-Holds : Holds (copied_links s t) (take q t)
  copied-Holds =
      Holds-apart (copied_links s t) t (list_del-take i.holds t q_free listed) new-IsSlot
        new-Unlisted (copy_anchors_same (list_del s.links (list_of t)) s.current t)

  pub family_links-Holds : Holds (family_links s t) (take q t)
  family_links-Holds = Holds-elsewhere (family_links s t) copied-Holds λ a off.
      let j = join_same copied-Children t new-IsSlot out ne a off in
      let f =
        init_list_head_same (joined_links s t) (fills_of t) a (ground (arith, new-IsSlot, off)) in
      let w =
        init_list_head_same (init_list_head (joined_links s t) (fills_of t)) (wait_list_of t) a
          (ground (arith, new-IsSlot, off)) in
      (w.0 ∙ f.0 ∙ j.0, w.1 ∙ f.1 ∙ j.1)

  -- The new task is the youngest child, and has no children.
  pub family_links-Children : Children (family_links s t) s.current (cs ++ t ∷ [])
  family_links-Children = record {
    ring = Ring-frame (family_links s t) joined.ring λ a h.
        let o = off_new joined t new-IsSlot ne a h in
        let f = init_list_head_same (joined_links s t) (fills_of t) a o.0 in
        let w =
          init_list_head_same (init_list_head (joined_links s t) (fills_of t)) (wait_list_of t) a
            o.1 in
        (w.0 ∙ f.0, w.1 ∙ f.1);
    slots = joined.slots;
    parent = joined.parent;
  }
    where
      joined : Children (joined_links s t) s.current (cs ++ t ∷ [])
      joined = join-Children copied-Children t new-IsSlot out ne

  pub family_links_childless : Children (family_links s t) t []
  family_links_childless = init_family-Children (joined_links s t) t new-IsSlot

  pub new_not_idle : t ≢ s.idle_task
  new_not_idle e =
      cc (listed, subst (λ x. has x (q q_free) ≡ false) (sym e) (i.idle_unlisted q_free))

  -- Any state with these links in which only the new task differs, and is not queued.
  pub placed-Inv :
      (b : Sched)
      → b.links ≡ family_links s t
      → b.idle_task ≡ s.idle_task
      → (b.tasks t).current_state ≡ st_run
      → ((u : ℕ) → u ≢ t → b.tasks u ≡ s.tasks u)
      → Inv b (take q t)
  placed-Inv b links idle state others =
      replace-Inv b (take q t) t i (subst (λ l. Holds l (take q t)) (sym links) family_links-Holds)
        (λ k u d. has-erase_ne u t (q k) d) (λ k h. absurd (cc (h, new-Unlisted k)))
        (λ p. rw state tt) new_not_idle idle others
