-- ===== src/Exit/Children.antt =====
-- The children of a task that leaves go to the idle task.
use mathlib.Core.List.{append-nil, append_assoc}
use so2_joan_erik.Common.{
  length, ℕ, zero, suc, ◌<◌, ◌≡◌, ◌≢◌, refl, true, false, List, [], ◌∷◌, ◌++◌, arith, has, Distinct,
  has-append, sym, ap, subst, ◌∙◌, ==_refl, ne→==, some, ◌||◌, ◌&&◌, leb, ◌-◌, if◌then◌else◌,
}
use so2_joan_erik.Links.{list_add_tail}
use so2_joan_erik.Links.Paths.{Forward}
use so2_joan_erik.Links.Ring.{SameAt, Forward-same, list_add_tail_same, head_or}
use so2_joan_erik.Task.Count.{length-slots}
use so2_joan_erik.Task.{IsSlot, fills_of, parent_anchor_of, list_head_to_task_struct}
use so2_joan_erik.Sched.{Sched, update_task}
use so2_joan_erik.Sched.Alike.{Alike, update_task-Alike}
use so2_joan_erik.Threads.Family.{
  Children, parent_anchors, parent_anchors-append, has-parent_anchors, join-Children,
}
use so2_joan_erik.Exit.{list_for_each_safe, for_each, give_child}

-- From the first of `xs` on the `next` fields lead through the others to `b`.
abbrev pub Chain : (ℕ → ℕ) → List ℕ → ℕ → Type 0
Chain n [] b = Unit {0}
Chain n (x ∷ xs) b = Forward n x xs b

pub Chain-next : (n : ℕ → ℕ) (x : ℕ) (xs : List ℕ) (b : ℕ) → Forward n x xs b → n x ≡ head_or b xs
Chain-next n x [] b f = f
Chain-next n x (y ∷ ys) b f = f.0

pub Chain-rest : (n : ℕ → ℕ) (x : ℕ) (xs : List ℕ) (b : ℕ) → Forward n x xs b → Chain n xs b
Chain-rest n x [] b f = tt
Chain-rest n x (y ∷ ys) b f = f.1

pub Chain-same :
    (n n' : ℕ → ℕ) (xs : List ℕ) (b : ℕ)
    → ((c : ℕ) → has c xs ≡ true → n' c ≡ n c)
    → Chain n xs b
    → Chain n' xs b
Chain-same n n' [] b same c = tt
Chain-same n n' (x ∷ xs) b same c = Forward-same n n' x xs b same c

pub list_head_to_task_struct-parent_anchor_of :
    (t : ℕ) → IsSlot t → list_head_to_task_struct (parent_anchor_of t) ≡ t
unfolding list_head_to_task_struct
list_head_to_task_struct-parent_anchor_of t h = omega arith

-- What the loop does to the children `cs`, in their order.
abbrev pub give_all : List ℕ → Sched → Sched
give_all [] s = s
give_all (c ∷ cs) s = give_all cs (give_child (parent_anchor_of c) s)

-- One round.
module _ (s : Sched) (c : ℕ) (slot : IsSlot c) where
  pub give_child-eq : give_child (parent_anchor_of c) s ≡ record s {
    tasks = update_task s.tasks c (record (s.tasks c) { pare = s.idle_task });
    links = list_add_tail s.links (parent_anchor_of c) (fills_of s.idle_task);
  }
  unfolding give_child
  give_child-eq = rw (list_head_to_task_struct-parent_anchor_of c slot) refl

  pub give_child_links :
      (give_child (parent_anchor_of c) s).links
      ≡ list_add_tail s.links (parent_anchor_of c) (fills_of s.idle_task)
  give_child_links = ap (λ (x : Sched). x.links) give_child-eq

  pub give_child-Alike :
      ((u : ℕ) → ((give_child (parent_anchor_of c) s).tasks u).pid ≡ (s.tasks u).pid)
      × ((u : ℕ)
          → ((give_child (parent_anchor_of c) s).tasks u).current_state ≡ (s.tasks u).current_state)
  give_child-Alike = rw give_child-eq (a.pid, a.state)
    where
      a :
          Alike s
            (record s { tasks = update_task s.tasks c (record (s.tasks c) { pare = s.idle_task }) })
      a = update_task-Alike s c _ refl refl

-- What all rounds leave alone.
pub record Given (s s' : Sched) (cs : List ℕ) : Type 0 where
  pub current : s'.current ≡ s.current
  pub idle : s'.idle_task ≡ s.idle_task
  pub pid : (u : ℕ) → (s'.tasks u).pid ≡ (s.tasks u).pid
  pub state : (u : ℕ) → (s'.tasks u).current_state ≡ (s.tasks u).current_state
  -- The children have the idle task as their parent, the others keep theirs.
  pub pare : (u : ℕ) → (s'.tasks u).pare ≡ (if has u cs then s.idle_task else (s.tasks u).pare)

pub give_all-Given :
    (cs : List ℕ) (s : Sched) → ((c : ℕ) → has c cs ≡ true → IsSlot c) → Given s (give_all cs s) cs
give_all-Given [] s slots = record {
  current = refl;
  idle = refl;
  pid = λ u. refl;
  state = λ u. refl;
  pare = λ u. refl;
}
give_all-Given (c ∷ cs) s slots =
    let slot : IsSlot c = slots c (ground arith) in
    let e = give_child-eq s c slot in
    let a = give_child-Alike s c slot in
    let g = give_all-Given cs (give_child (parent_anchor_of c) s) (λ u h. slots u (ground arith)) in
    record {
      current = g.current ∙ ap (λ (x : Sched). x.current) e;
      idle = g.idle ∙ ap (λ (x : Sched). x.idle_task) e;
      pid = λ u. g.pid u ∙ a.0 u;
      state = λ u. g.state u ∙ a.1 u;
      pare = λ u. g.pare u ∙ rw e (ground arith);
    }

-- The ring of the idle task's children has grown at its end, and what is neither on it nor among
-- the anchors of the new ones is as it was.
pub record Adopted (s s' : Sched) (cs is : List ℕ) : Type 0 where
  pub family : Children s'.links s.idle_task (is ++ cs)
  pub same :
      (a : ℕ)
      → has a (fills_of s.idle_task ∷ parent_anchors (is ++ cs)) ≡ false
      → SameAt s.links s'.links a

-- Children of `ct` that may join those of the idle task: they are different, and not among them.
pub record Adoptable (s : Sched) (is cs : List ℕ) : Type 0 where
  pub family : Children s.links s.idle_task is
  pub distinct : Distinct cs
  pub slots : (c : ℕ) → has c cs ≡ true → IsSlot c
  pub fresh : (c : ℕ) → has c cs ≡ true → has c is ≡ false
  pub not_idle : (c : ℕ) → has c cs ≡ true → c ≢ s.idle_task

has-family :
    (a : ℕ) (is cs : List ℕ)
    → has a (parent_anchors (is ++ cs)) ≡ (has a (parent_anchors is) || has a (parent_anchors cs))
has-family a is cs =
    ap (has a) (parent_anchors-append is cs) ∙ has-append a (parent_anchors is) (parent_anchors cs)

module _ (s : Sched) (c : ℕ) (cs is : List ℕ) (w : Adoptable s is (c ∷ cs)) where
  c-IsSlot : IsSlot c
  c-IsSlot = w.slots c (ground arith)

  idle_same : (give_child (parent_anchor_of c) s).idle_task ≡ s.idle_task
  idle_same = ap (λ (x : Sched). x.idle_task) (give_child-eq s c c-IsSlot)

  -- A round changes the links at the anchor of the child and at the ring that it joins.
  give_same :
      (a : ℕ)
      → a ≢ parent_anchor_of c
      → has a (fills_of s.idle_task ∷ parent_anchors is) ≡ false
      → SameAt s.links (give_child (parent_anchor_of c) s).links a
  give_same a ne out =
      rw (give_child-eq s c c-IsSlot)
        (list_add_tail_same w.family.ring (parent_anchor_of c) a ne out)

  give_next : Adoptable (give_child (parent_anchor_of c) s) (is ++ c ∷ []) cs
  give_next = record {
    family = rw (give_child-eq s c c-IsSlot) (
        join-Children w.family c c-IsSlot (w.fresh c (ground arith)) (w.not_idle c (ground arith)));
    distinct = w.distinct.1;
    slots = λ u h. w.slots u (ground arith);
    fresh =
        λ u h. ground (arith, has-append u is (c ∷ []), w.fresh u (ground arith), w.distinct.0, h);
    not_idle = λ u h e. w.not_idle u (ground arith) (e ∙ idle_same);
  }

  rest_apart :
      (a : ℕ)
      → has a (parent_anchors cs) ≡ true
      → (a ≢ parent_anchor_of c) × (has a (fills_of s.idle_task ∷ parent_anchors is) ≡ false)
  rest_apart a h =
      let i : (leb 40 a && has (a - 40) cs) ≡ true = sym (has-parent_anchors a cs) ∙ h in
      let u : has (a - 40) cs ≡ true = ground (arith, i) in
      let slot : IsSlot (a - 40) = w.slots (a - 40) (ground (arith, u)) in
      (
        λ e. ground (
          arith,
          w.distinct.0,
          subst (λ x. has x cs ≡ true) {x = a - 40} {y = c} (omega (arith, e)) u,
        ),
        ground (
          arith,
          i,
          slot,
          w.family.parent,
          has-parent_anchors a is,
          w.fresh (a - 40) (ground (arith, u)),
        ),
      )

pub give_all-Adopted :
    (cs is : List ℕ) (s : Sched) → Adoptable s is cs → Adopted s (give_all cs s) cs is
give_all-Adopted [] is s w = record {
  family = subst (Children s.links s.idle_task) (sym (append-nil is)) w.family;
  same = λ a h. (refl, refl);
}
give_all-Adopted (c ∷ cs) is s w =
    let s1 : Sched = give_child (parent_anchor_of c) s in
    let rest : Adopted s1 (give_all cs s1) cs (is ++ c ∷ []) =
      give_all-Adopted cs (is ++ c ∷ []) s1 (give_next s c cs is w) in
    let idle : s1.idle_task ≡ s.idle_task = idle_same s c cs is w in
    record {
      family =
          subst (λ x. Children (give_all cs s1).links x (is ++ c ∷ cs)) idle
            (subst (Children (give_all cs s1).links s1.idle_task) (append_assoc is (c ∷ []) cs)
              rest.family);
      same = λ a h.
          let here = has-family a is (c ∷ cs) in
          let g = give_same s c cs is w a (ground (arith, h, here)) (ground (arith, h, here)) in
          let r = rest.same a (
            subst (λ x. has a (fills_of x ∷ parent_anchors (is ++ c ∷ [] ++ cs)) ≡ false) (sym idle)
              (subst (λ l. has a (fills_of s.idle_task ∷ parent_anchors l) ≡ false)
                (sym (append_assoc is (c ∷ []) cs)) h)) in
          (r.0 ∙ g.0, r.1 ∙ g.1);
    }

-- The rounds of the loop, from the first of `cs` on.
give_loop :
    (f ct : ℕ) (cs is : List ℕ) (s : Sched)
    → Adoptable s is cs
    → IsSlot ct
    → ct ≢ s.idle_task
    → Chain s.links.next (parent_anchors cs) (fills_of ct)
    → length cs < f
    → list_for_each_safe f give_child (fills_of ct) (head_or (fills_of ct) (parent_anchors cs)) s
      ≡ some (give_all cs s)
unfolding list_for_each_safe
give_loop zero ct cs is s w slot ne chain h = absurd (omega (arith, h))
give_loop (suc f) ct [] is s w slot ne chain h = rw (==_refl (fills_of ct)) refl
give_loop (suc f) ct (c ∷ cs) is s w slot ne chain h =
    let other : parent_anchor_of c ≢ fills_of ct =
      λ e. omega (arith, e, slot, c-IsSlot s c cs is w) in
    let s1 : Sched = give_child (parent_anchor_of c) s in
    let chain' : Chain s1.links.next (parent_anchors cs) (fills_of ct) =
      Chain-same s.links.next s1.links.next (parent_anchors cs) (fills_of ct)
        (λ a i.
          (give_same s c cs is w a (rest_apart s c cs is w a i).0 (rest_apart s c cs is w a i).1).0)
        (Chain-rest s.links.next (parent_anchor_of c) (parent_anchors cs) (fills_of ct) chain) in
    rw
      (
        ne→== other,
        Chain-next s.links.next (parent_anchor_of c) (parent_anchors cs) (fills_of ct) chain,
      )
      (give_loop f ct cs (is ++ c ∷ []) s1 (give_next s c cs is w) slot
        (λ e. ne (e ∙ idle_same s c cs is w)) chain' (omega (arith, h)))

-- The loop over the children ends, and has done to each in order what a round does.
pub for_each-give_all :
    (ct : ℕ) (cs is : List ℕ) (s : Sched)
    → Children s.links ct cs
    → Adoptable s is cs
    → ct ≢ s.idle_task
    → for_each give_child (fills_of ct) s ≡ some (give_all cs s)
unfolding for_each
for_each-give_all ct cs is s c w ne =
    ap (λ p. list_for_each_safe 11 give_child (fills_of ct) p s)
      (Chain-next s.links.next (fills_of ct) (parent_anchors cs) (fills_of ct) c.ring.forward)
    ∙ give_loop 11 ct cs is s w c.parent ne
        (Chain-rest s.links.next (fills_of ct) (parent_anchors cs) (fills_of ct) c.ring.forward)
        (omega (arith, length-slots cs w.distinct w.slots))
