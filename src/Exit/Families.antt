-- ===== src/Exit/Families.antt =====
-- The families of all live tasks, when one of them leaves.
use so2_joan_erik.Common.{
  ℕ, ◌<◌, ◌-◌, ◌%◌, ◌≡◌, ◌≢◌, refl, Bool, true, false, List, [], ◌∷◌, arith, has, erase, Distinct,
  has-erase-false, erase_absent, sym, subst, ◌∙◌, inl, inr, ◌⊎◌, ◌==◌, ==→eq, Bool-cases,
}
use so2_joan_erik.Links.{Links, list_del}
use so2_joan_erik.Links.Ring.{Ring, Ring-frame, SameAt, list_del_same, list_del-Ring}
use so2_joan_erik.Task.{fills_of, parent_anchor_of}
use so2_joan_erik.Threads.Family.{Children, parent_anchors, has-parent_anchors}

-- The live tasks, each with its children; no task is a child of two.
pub record Families (m : Links) (live : ℕ → Bool) (kids : ℕ → List ℕ) : Type 0 where
  pub family : (p : ℕ) → live p ≡ true → Children m p (kids p)
  pub apart :
      (p p' c : ℕ)
      → live p ≡ true
      → live p' ≡ true
      → has c (kids p) ≡ true
      → has c (kids p') ≡ true
      → p ≡ p'

-- A family is at two fields of tasks alone.
abbrev pub IsOffFamilies : ℕ → Type 0
IsOffFamilies a = (a < 64) ⊎ ((a % 4096 ≢ 32) × (a % 4096 ≢ 40))

pub off_family :
    {m : Links} {p : ℕ} {cs : List ℕ} (a : ℕ)
    → Children m p cs
    → IsOffFamilies a
    → has a (fills_of p ∷ parent_anchors cs) ≡ false
off_family {cs = cs} a c h = ground (
  arith,
  h,
  c.parent,
  has-parent_anchors a cs,
  λ (x : has (a - 40) cs ≡ true). c.slots (a - 40) x,
)

pub at_family :
    {m : Links} {p : ℕ} {cs : List ℕ} (a : ℕ)
    → Children m p cs
    → has a (fills_of p ∷ parent_anchors cs) ≡ true
    → (a % 4096 ≡ 32) ⊎ (a % 4096 ≡ 40)
at_family {cs = cs} a c h = ground (
  arith,
  h,
  c.parent,
  has-parent_anchors a cs,
  λ (x : has (a - 40) cs ≡ true). c.slots (a - 40) x,
)

parent_anchors-erase :
    (t : ℕ) (ts : List ℕ)
    → erase (parent_anchor_of t) (parent_anchors ts) ≡ parent_anchors (erase t ts)
parent_anchors-erase t [] = refl
parent_anchors-erase t (u ∷ us) = ground (arith, parent_anchors-erase t us)

Distinct-parent_anchors : (ts : List ℕ) → Distinct (parent_anchors ts) → Distinct ts
Distinct-parent_anchors [] d = tt
Distinct-parent_anchors (t ∷ ts) d =
    ground (arith, has-parent_anchors (parent_anchor_of t) ts, Distinct-parent_anchors ts d.1)

pub Children-Distinct : {m : Links} {p : ℕ} {cs : List ℕ} → Children m p cs → Distinct cs
Children-Distinct {cs = cs} c = Distinct-parent_anchors cs c.ring.distinct.1

-- Families with no child in common lie apart.
pub Children-apart :
    {m m' : Links} {p p' : ℕ} {cs cs' : List ℕ} (a : ℕ)
    → Children m p cs
    → Children m' p' cs'
    → p ≢ p'
    → ((c : ℕ) → has c cs ≡ true → has c cs' ≡ false)
    → has a (fills_of p ∷ parent_anchors cs) ≡ true
    → has a (fills_of p' ∷ parent_anchors cs') ≡ false
Children-apart {cs = cs} {cs' = cs'} a c c' ne out h = ground (
  arith,
  c.parent,
  c'.parent,
  has-parent_anchors a cs,
  has-parent_anchors a cs',
  λ (x : has (a - 40) cs ≡ true). c.slots (a - 40) x,
  λ (x : has (a - 40) cs' ≡ true). c'.slots (a - 40) x,
  λ (x : has (a - 40) cs ≡ true). out (a - 40) x,
)

module _ {m : Links} {live : ℕ → Bool} {kids : ℕ → List ℕ} (f : Families m live kids) (t p0 : ℕ)
    (live0 : live p0 ≡ true) (child : has t (kids p0) ≡ true) where
  others : (p : ℕ) → live p ≡ true → p ≢ p0 → has t (kids p) ≡ false
  others p l ne = ground (arith, λ (h : has t (kids p) ≡ true). ne (f.apart p p0 t l live0 h child))

  -- `list_del` of its anchor takes the task `t` out of its parent's children.
  pub list_del-family :
      (p : ℕ) → live p ≡ true → Children (list_del m (parent_anchor_of t)) p (erase t (kids p))
  list_del-family p l = elim (Bool-cases (p == p0)) [
    | inl e ↦
        let q : p ≡ p0 = ==→eq p p0 e in
        subst (λ x. Children (list_del m (parent_anchor_of t)) x (erase t (kids x))) (sym q)
          (record {
            ring =
                subst (Ring (list_del m (parent_anchor_of t)) (fills_of p0))
                  (parent_anchors-erase t (kids p0))
                  (list_del-Ring (f.family p0 live0).ring (parent_anchor_of t) inside);
            slots = λ u h.
                (f.family p0 live0).slots u (ground (arith, h, has-erase-false u t (kids p0)));
            parent = (f.family p0 live0).parent;
          })
    | inr e ↦
        let ne : p ≢ p0 = λ x. ground (arith, e, x) in
        let c : Children m p (kids p) = f.family p l in
        subst (Children (list_del m (parent_anchor_of t)) p)
          (sym (erase_absent t (kids p) (others p l ne)))
          (record {
            ring = Ring-frame _ c.ring λ a h.
                list_del_same (f.family p0 live0).ring (parent_anchor_of t) a inside (
                  Children-apart a c (f.family p0 live0) ne
                    (λ u i.
                      ground
                        (arith, λ (j : has u (kids p0) ≡ true). ne (f.apart p p0 u l live0 i j)))
                    h);
            slots = c.slots;
            parent = c.parent;
          })
  ]
    where
      inside : has (parent_anchor_of t) (parent_anchors (kids p0)) ≡ true
      inside = has-parent_anchors (parent_anchor_of t) (kids p0) ∙ ground (arith, child)

  pub list_del-family_same :
      (a : ℕ) → IsOffFamilies a → SameAt m (list_del m (parent_anchor_of t)) a
  list_del-family_same a h =
      list_del_same (f.family p0 live0).ring (parent_anchor_of t) a
        (has-parent_anchors (parent_anchor_of t) (kids p0) ∙ ground (arith, child))
        (off_family a (f.family p0 live0) h)
