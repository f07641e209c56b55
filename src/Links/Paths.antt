-- ===== src/Links/Paths.antt =====
-- Chains of `next` fields and of `prev` fields, and what the stores of list.c do to them.
use so2_joan_erik.Common.{ℕ, ◌≡◌, true, false, List, [], ◌∷◌, ◌++◌, arith, has, Distinct, erase}
use so2_joan_erik.Links.{null, update}

-- From `a` the `next` fields lead through `xs` to `b`.
abbrev pub Forward : (ℕ → ℕ) → ℕ → List ℕ → ℕ → Type 0
Forward n a [] b = n a ≡ b
Forward n a (x ∷ xs) b = (n a ≡ x) × Forward n x xs b

-- From `b` the `prev` fields lead back through `xs` to `a`.
abbrev pub Backward : (ℕ → ℕ) → ℕ → List ℕ → ℕ → Type 0
Backward p a [] b = p b ≡ a
Backward p a (x ∷ xs) b = (p x ≡ a) × Backward p x xs b

-- A store at an address outside a chain leaves the chain.
pub Forward-frame :
    (n : ℕ → ℕ) (a : ℕ) (xs : List ℕ) (b q v : ℕ)
    → has q (a ∷ xs) ≡ false
    → Forward n a xs b
    → Forward (update n q v) a xs b
Forward-frame n a [] b q v out f = ground arith
Forward-frame n a (x ∷ xs) b q v out f = ground (arith, Forward-frame n x xs b q v)

pub Backward-frame :
    (p : ℕ → ℕ) (a : ℕ) (xs : List ℕ) (b q v : ℕ)
    → has q (b ∷ xs) ≡ false
    → Backward p a xs b
    → Backward (update p q v) a xs b
Backward-frame p a [] b q v out f = ground arith
Backward-frame p a (x ∷ xs) b q v out f = ground (arith, Backward-frame p x xs b q v)

-- The last address before `b` is one of the chain.
pub has-prev_end :
    (p : ℕ → ℕ) (a : ℕ) (xs : List ℕ) (b : ℕ) → Backward p a xs b → has (p b) (a ∷ xs) ≡ true
has-prev_end p a [] b f = ground arith
has-prev_end p a (x ∷ xs) b f = ground (arith, has-prev_end p x xs b f.1)

-- The neighbours of an element are of the chain, or its ends.
pub has-prev :
    (p : ℕ → ℕ) (a : ℕ) (xs : List ℕ) (b e : ℕ)
    → Backward p a xs b
    → has e xs ≡ true
    → has (p e) (a ∷ xs) ≡ true
has-prev p a [] b e f h = absurd (ground arith)
has-prev p a (x ∷ xs) b e f h = ground (arith, has-prev p x xs b e f.1)

pub has-next :
    (n : ℕ → ℕ) (a : ℕ) (xs : List ℕ) (b e : ℕ)
    → Forward n a xs b
    → has e (a ∷ xs) ≡ true
    → has (n e) (b ∷ xs) ≡ true
has-next n a [] b e f h = ground arith
has-next n a (x ∷ xs) b e f h = ground (arith, has-next n x xs b e f.1)

-- The stores of `list_add_tail`: `new` goes between `p b` and `b`.
pub Forward-snoc :
    (n p : ℕ → ℕ) (a : ℕ) (xs : List ℕ) (b new : ℕ)
    → Forward n a xs b
    → Backward p a xs b
    → Distinct (a ∷ xs)
    → has new (a ∷ xs) ≡ false
    → Forward (update (update n new b) (p b) new) a (xs ++ new ∷ []) b
Forward-snoc n p a [] b new f g d out = ground arith
Forward-snoc n p a (x ∷ xs) b new f g d out =
    ground (arith, has-prev_end p x xs b, Forward-snoc n p x xs b new f.1 g.1 d.1)

pub Backward-snoc :
    (p : ℕ → ℕ) (a : ℕ) (xs : List ℕ) (b new : ℕ)
    → Backward p a xs b
    → has b xs ≡ false
    → has new (b ∷ xs) ≡ false
    → Backward (update (update p b new) new (p b)) a (xs ++ new ∷ []) b
Backward-snoc p a [] b new g out fresh = ground arith
Backward-snoc p a (x ∷ xs) b new g out fresh = ground (arith, Backward-snoc p x xs b new g.1)

-- The stores of `list_add`: `new` goes between `a` and `n a`.
pub Forward-cons :
    (n : ℕ → ℕ) (a : ℕ) (xs : List ℕ) (b new : ℕ)
    → Forward n a xs b
    → has a xs ≡ false
    → has new (a ∷ xs) ≡ false
    → Forward (update (update n new (n a)) a new) a (new ∷ xs) b
Forward-cons n a [] b new f out fresh = ground arith
Forward-cons n a (x ∷ xs) b new f out fresh =
    ground
      (arith, Forward-frame n x xs b new (n a), Forward-frame (update n new (n a)) x xs b a new)

pub Backward-cons :
    (n p : ℕ → ℕ) (a : ℕ) (xs : List ℕ) (b new : ℕ)
    → Forward n a xs b
    → Backward p a xs b
    → Distinct (b ∷ xs)
    → has new (b ∷ xs) ≡ false
    → Backward (update (update p (n a) new) new a) a (new ∷ xs) b
Backward-cons n p a [] b new f g d fresh = ground arith
Backward-cons n p a (x ∷ xs) b new f g d fresh =
    ground (arith, Backward-frame p x xs b x new, Backward-frame (update p x new) x xs b new a)

-- The stores of `list_del`.
abbrev pub del_next : (ℕ → ℕ) → (ℕ → ℕ) → ℕ → ℕ → ℕ
del_next n p e = update (update n (p e) (n e)) e null

abbrev pub del_prev : (ℕ → ℕ) → (ℕ → ℕ) → ℕ → ℕ → ℕ
del_prev n p e = update (update p (n e) (p e)) e null

-- When the element is the first of the chain.
Forward-del_first :
    (n p : ℕ → ℕ) (a e : ℕ) (xs : List ℕ) (b : ℕ)
    → p e ≡ a
    → Forward n e xs b
    → Distinct (a ∷ e ∷ xs)
    → Forward (del_next n p e) a xs b
Forward-del_first n p a e [] b pe f d = ground arith
Forward-del_first n p a e (x ∷ xs) b pe f d =
    ground (
      arith,
      Forward-frame n x xs b (p e) (n e),
      Forward-frame (update n (p e) (n e)) x xs b e null,
    )

pub Forward-del :
    (n p : ℕ → ℕ) (a e : ℕ) (xs : List ℕ) (b : ℕ)
    → Forward n a xs b
    → Backward p a xs b
    → Distinct (a ∷ xs)
    → has e xs ≡ true
    → Forward (del_next n p e) a (erase e xs) b
Forward-del n p a e [] b f g d h = absurd (ground arith)
Forward-del n p a e (x ∷ xs) b f g d h = ground (
  arith,
  Forward-del_first n p a x xs b g.0 f.1,
  has-prev p x xs b e g.1,
  Forward-del n p x e xs b f.1 g.1 d.1,
)

Backward-del_first :
    (n p : ℕ → ℕ) (a e : ℕ) (xs : List ℕ) (b : ℕ)
    → p e ≡ a
    → Forward n e xs b
    → Backward p e xs b
    → Distinct (b ∷ e ∷ xs)
    → Backward (del_prev n p e) a xs b
Backward-del_first n p a e [] b pe f g d = ground arith
Backward-del_first n p a e (x ∷ xs) b pe f g d = ground (
  arith,
  Backward-frame p x xs b (n e) (p e),
  Backward-frame (update p (n e) (p e)) x xs b e null,
)

pub Backward-del :
    (n p : ℕ → ℕ) (a e : ℕ) (xs : List ℕ) (b : ℕ)
    → Forward n a xs b
    → Backward p a xs b
    → Distinct (b ∷ xs)
    → has e xs ≡ true
    → Backward (del_prev n p e) a (erase e xs) b
Backward-del n p a e [] b f g d h = absurd (ground arith)
Backward-del n p a e (x ∷ xs) b f g d h = ground (
  arith,
  Backward-del_first n p a x xs b g.0 f.1 g.1,
  has-next n x xs b e f.1,
  Backward-del n p x e xs b f.1 g.1,
)
