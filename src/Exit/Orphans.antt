-- ===== src/Exit/Orphans.antt =====
-- A process leaves: its descriptor is forgotten, and its children get the idle task as their parent.
use so2_joan_erik.Common.{
  ℕ, ◌≡◌, ◌≢◌, refl, Bool, true, false, List, ◌++◌, arith, has, erase, has-erase-false,
  erase_absent, sym, ap, subst, ◌∙◌, inl, inr, ◌==◌, ==→eq, ==_refl, ne→==, Bool-cases,
  if◌then◌else◌, negsuc, is_pos, has-append,
}
use so2_joan_erik.Links.{list_del}
use so2_joan_erik.Links.Ring.{Ring-frame, SameAt}
use so2_joan_erik.Task.{st_run, IsSlot, parent_anchor_of}
use so2_joan_erik.Sched.{Sched, set_links}
use so2_joan_erik.Sched.Queues.{q_blocked, Contents, Unlisted}
use so2_joan_erik.Sched.Invariant.{Inv, retask}
use so2_joan_erik.Sched.Alike.{Alike-Inv}
use so2_joan_erik.Sched.Moves.{not_idle}
use so2_joan_erik.Sched.Spared.{Inv-elsewhere}
use so2_joan_erik.Threads.Family.{Children}
use so2_joan_erik.Exit.{forget_task}
use so2_joan_erik.Exit.Families.{
  Families, IsOffFamilies, off_family, Children-Distinct, Children-apart, list_del-family,
  list_del-family_same,
}
use so2_joan_erik.Exit.Children.{
  Adoptable, Adopted, Given, give_all, give_all-Given, give_all-Adopted,
}
use so2_joan_erik.Exit.Waiters.{Sleepers}
use so2_joan_erik.Exit.Waiting.{WaitsFor, WaitsFor-frame}

-- A running process, in no queue, with a parent; the families of the live tasks, and those that
-- wait for it, which are blocked.
pub record Leaving (s : Sched) (q : Contents) (live : ℕ → Bool) (kids : ℕ → List ℕ) (parent : ℕ)
    (ws : List ℕ) : Type 0 where
  pub inv : Inv s q
  pub slot : IsSlot s.current
  pub running : (s.tasks s.current).current_state ≡ st_run
  pub process : is_pos (s.tasks s.current).pid ≡ true
  pub unlisted : Unlisted q s.current
  pub families : Families s.links live kids
  pub lives : live s.current ≡ true
  pub idle_lives : live s.idle_task ≡ true
  pub parent_lives : live parent ≡ true
  pub child : has s.current (kids parent) ≡ true
  pub not_own : parent ≢ s.current
  pub idle_above : has s.idle_task (kids s.current) ≡ false
  pub waits : WaitsFor s.links s.current ws
  pub sleeps : (w : ℕ) → has w ws ≡ true → has w (q q_blocked) ≡ true

-- The children of the live tasks afterwards.
abbrev pub kids_after : Sched → (ℕ → List ℕ) → ℕ → List ℕ
kids_after s kids p =
    if p == s.idle_task
    then erase s.current (kids p) ++ kids s.current
    else erase s.current (kids p)

-- The states on the way: the descriptor forgotten, the children with the idle task.
abbrev pub forgotten : Sched → Sched
forgotten s = forget_task s.current s

abbrev pub orphaned : Sched → (ℕ → List ℕ) → Sched
orphaned s kids = give_all (kids s.current) (forgotten s)

module _ {s : Sched} {q : Contents} {live : ℕ → Bool} {kids : ℕ → List ℕ} {parent : ℕ} {ws : List ℕ}
    (g : Leaving s q live kids parent ws) where
  pub ct-not_idle : s.current ≢ s.idle_task
  ct-not_idle = not_idle s.current g.inv g.process

  forgotten-family :
      (p : ℕ) → live p ≡ true → Children (forgotten s).links p (erase s.current (kids p))
  unfolding forget_task
  forgotten-family = list_del-family g.families s.current parent g.parent_lives g.child

  forgotten_same : (a : ℕ) → IsOffFamilies a → SameAt s.links (forgotten s).links a
  unfolding forget_task
  forgotten_same = list_del-family_same g.families s.current parent g.parent_lives g.child

  pub forgotten_pid : ((forgotten s).tasks s.current).pid ≡ negsuc 0
  unfolding forget_task
  forgotten_pid = rw (==_refl s.current) refl

  forgotten_state : (u : ℕ) → ((forgotten s).tasks u).current_state ≡ (s.tasks u).current_state
  unfolding forget_task
  forgotten_state u = ground (arith, ap (λ x. (s.tasks x).current_state) {x = u} {y = s.current})

  pub forgotten_pare : (u : ℕ) → u ≢ s.current → ((forgotten s).tasks u).pare ≡ (s.tasks u).pare
  unfolding forget_task
  forgotten_pare u h = rw (ne→== h) refl

  forgotten-Inv : Inv (forgotten s) q
  unfolding forget_task
  forgotten-Inv =
      let i : Inv (set_links s (list_del s.links (parent_anchor_of s.current))) q =
        Inv-elsewhere _ g.inv (λ a h. forgotten_same a (ground (arith, h))) in
      retask (list_del s.links (parent_anchor_of s.current)) q s.current _ i i.holds
        (λ k u ne. refl) (λ k h. cc (h, g.unlisted k)) (λ h. absurd (ground (arith, h)))
        (λ e. absurd (ct-not_idle e))

  no_own : has s.current (kids s.current) ≡ false
  no_own = ground (
    arith,
    λ (h : has s.current (kids s.current) ≡ true).
        g.not_own (g.families.apart parent s.current s.current g.parent_lives g.lives g.child h),
  )

  pub ct-family : Children (forgotten s).links s.current (kids s.current)
  ct-family =
      subst (Children (forgotten s).links s.current)
        (erase_absent s.current (kids s.current) no_own) (forgotten-family s.current g.lives)

  pub orphans-Adoptable :
      Adoptable (forgotten s) (erase s.current (kids s.idle_task)) (kids s.current)
  unfolding forget_task
  orphans-Adoptable = record {
    family = forgotten-family s.idle_task g.idle_lives;
    distinct = Children-Distinct ct-family;
    slots = ct-family.slots;
    fresh = λ c h. ground (
      arith,
      has-erase-false c s.current (kids s.idle_task),
      λ (i : has c (kids s.idle_task) ≡ true).
          ct-not_idle (g.families.apart s.current s.idle_task c g.lives g.idle_lives h i),
    );
    not_idle = λ c h e. cc (g.idle_above, subst (λ x. has x (kids s.current) ≡ true) e h);
  }

  pub orphaned-Given : Given (forgotten s) (orphaned s kids) (kids s.current)
  orphaned-Given = give_all-Given (kids s.current) (forgotten s) ct-family.slots

  orphaned-Adopted :
      Adopted (forgotten s) (orphaned s kids) (kids s.current) (erase s.current (kids s.idle_task))
  orphaned-Adopted =
      give_all-Adopted (kids s.current) (erase s.current (kids s.idle_task)) (forgotten s)
        orphans-Adoptable

  pub forgotten_idle : (forgotten s).idle_task ≡ s.idle_task
  unfolding forget_task
  forgotten_idle = refl

  pub forgotten_current : (forgotten s).current ≡ s.current
  unfolding forget_task
  forgotten_current = refl

  orphaned_same : (a : ℕ) → IsOffFamilies a → SameAt (forgotten s).links (orphaned s kids).links a
  orphaned_same a h = orphaned-Adopted.same a (off_family a orphaned-Adopted.family h)

  orphaned-Inv : Inv (orphaned s kids) q
  orphaned-Inv =
      Alike-Inv {s = set_links (forgotten s) (orphaned s kids).links}
        (record { links = refl; pid = orphaned-Given.pid; state = orphaned-Given.state })
        orphaned-Given.idle
        (Inv-elsewhere (orphaned s kids).links forgotten-Inv
          (λ a h. orphaned_same a (ground (arith, h))))

  pub orphaned-Sleepers : Sleepers (orphaned s kids) q s.current ws
  orphaned-Sleepers = record {
    inv = orphaned-Inv;
    waits = WaitsFor-frame g.waits (orphaned s kids).links λ a h.
        let x = forgotten_same a (ground (arith, h)) in
        let y = orphaned_same a (ground (arith, h)) in (y.0 ∙ x.0, y.1 ∙ x.1);
    sleeps = g.sleeps;
  }

  stranger :
      (p : ℕ)
      → live p ≡ true
      → p ≢ s.current
      → p ≢ s.idle_task
      → (c : ℕ) → has c (erase s.current (kids p)) ≡ true
      → has c (erase s.current (kids s.idle_task) ++ kids s.current) ≡ false
  stranger p l ne nt c h =
      let i : has c (kids p) ≡ true = ground (arith, h, has-erase-false c s.current (kids p)) in
      ground (
        arith,
        has-append c (erase s.current (kids s.idle_task)) (kids s.current),
        has-erase-false c s.current (kids s.idle_task),
        λ (j : has c (kids s.idle_task) ≡ true).
            nt (g.families.apart p s.idle_task c l g.idle_lives i j),
        λ (j : has c (kids s.current) ≡ true). ne (g.families.apart p s.current c l g.lives i j),
      )

  pub orphaned-family :
      (p : ℕ)
      → live p ≡ true
      → p ≢ s.current
      → Children (orphaned s kids).links p (kids_after s kids p)
  orphaned-family p l ne = elim (Bool-cases (p == s.idle_task)) [
    | inl e ↦ rw e (
        subst (λ x. Children (orphaned s kids).links x (erase s.current (kids x) ++ kids s.current))
          (sym (==→eq p s.idle_task e))
          (subst
            (λ x.
              Children (orphaned s kids).links x
                (erase s.current (kids s.idle_task) ++ kids s.current))
            forgotten_idle orphaned-Adopted.family))
    | inr e ↦
        let c : Children (forgotten s).links p (erase s.current (kids p)) = forgotten-family p l in
        rw e (record {
          ring = Ring-frame (orphaned s kids).links c.ring λ a h. orphaned-Adopted.same a (
              Children-apart a c orphaned-Adopted.family (λ x. ground (arith, e, x, forgotten_idle))
                (stranger p l ne (λ x. ground (arith, e, x))) h);
          slots = c.slots;
          parent = c.parent;
        })
  ]
