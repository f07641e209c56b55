-- ===== src/Links/Ring.antt =====
-- A ring: a list head and, through `next` and `prev`, its entries in order. What each operation of
-- list.c does to the ring it works on, and that it spares every other ring.
use so2_joan_erik.Common.{
  ℕ, ◌≡◌, ◌≢◌, Bool, true, false, List, [], ◌∷◌, ◌++◌, arith, ◌==◌, has, Distinct, erase, subst,
  sym, has-append, has-erase-false, Distinct-erase, Distinct-snoc,
}
use so2_joan_erik.Links.{
  Links, null, init_list_head, list_add, list_add_tail, list_del, list_is_last, list_empty,
  list_first,
}
use so2_joan_erik.Links.Paths.{
  Forward, Backward, Forward-snoc, Backward-snoc, Forward-cons, Backward-cons, Forward-del,
  Backward-del, has-prev_end, has-prev, has-next,
}

pub record Ring (m : Links) (head : ℕ) (xs : List ℕ) : Type 0 where
  pub forward : Forward m.next head xs head
  pub backward : Backward m.prev head xs head
  pub distinct : Distinct (head ∷ xs)
  pub not_null : has null (head ∷ xs) ≡ false

-- The fields at `a` are the same in both memories.
abbrev pub SameAt : Links → Links → ℕ → Type 0
SameAt m m' a = (m'.next a ≡ m.next a) × (m'.prev a ≡ m.prev a)

abbrev pub is_nil : List ℕ → Bool
is_nil [] = true
is_nil (x ∷ xs) = false

abbrev pub head_or : ℕ → List ℕ → ℕ
head_or d [] = d
head_or d (x ∷ xs) = x

pub Forward-same :
    (n n' : ℕ → ℕ) (a : ℕ) (xs : List ℕ) (b : ℕ)
    → ((c : ℕ) → has c (a ∷ xs) ≡ true → n' c ≡ n c)
    → Forward n a xs b
    → Forward n' a xs b
Forward-same n n' a [] b same f = ground (arith, same a)
Forward-same n n' a (x ∷ xs) b same f =
    ground (arith, same a, Forward-same n n' x xs b (λ c h. same c (ground arith)) f.1)

Backward-same :
    (p p' : ℕ → ℕ) (a : ℕ) (xs : List ℕ) (b : ℕ)
    → ((c : ℕ) → has c (b ∷ xs) ≡ true → p' c ≡ p c)
    → Backward p a xs b
    → Backward p' a xs b
Backward-same p p' a [] b same f = ground (arith, same b)
Backward-same p p' a (x ∷ xs) b same f =
    ground (arith, same x, Backward-same p p' x xs b (λ c h. same c (ground arith)) f.1)

-- A ring survives any change that spares its own addresses.
pub Ring-frame :
    {m : Links} (m' : Links) {head : ℕ} {xs : List ℕ}
    → Ring m head xs
    → ((a : ℕ) → has a (head ∷ xs) ≡ true → SameAt m m' a)
    → Ring m' head xs
Ring-frame {m} m' {head} {xs} r same = record {
  forward = Forward-same m.next m'.next head xs head (λ c h. (same c h).0) r.forward;
  backward = Backward-same m.prev m'.prev head xs head (λ c h. (same c h).1) r.backward;
  distinct = r.distinct;
  not_null = r.not_null;
}

-- `INIT_LIST_HEAD` makes an empty ring of any address but NULL.
pub init_list_head-Ring :
    (m : Links) (list : ℕ) → list ≢ null → Ring (init_list_head m list) list []
unfolding init_list_head
init_list_head-Ring m list h = record {
  forward = ground arith;
  backward = ground arith;
  distinct = ground arith;
  not_null = ground arith;
}

-- It writes nowhere else.
pub init_list_head_same : (m : Links) (list a : ℕ) → a ≢ list → SameAt m (init_list_head m list) a
unfolding init_list_head
init_list_head_same m list a h = ground arith

module _ {m : Links} {head : ℕ} {xs : List ℕ} (r : Ring m head xs) where
  -- The last entry, or the head itself if there is none.
  pub has-prev_head : has (m.prev head) (head ∷ xs) ≡ true
  has-prev_head = has-prev_end m.prev head xs head r.backward

  -- To a ring, `list_add_tail` appends an address that is not NULL and not in it.
  pub list_add_tail-Ring :
      (new : ℕ)
      → new ≢ null
      → has new (head ∷ xs) ≡ false
      → Ring (list_add_tail m new head) head (xs ++ new ∷ [])
  unfolding list_add_tail
  list_add_tail-Ring new ne out = record {
    forward = Forward-snoc m.next m.prev head xs head new r.forward r.backward r.distinct out;
    backward = Backward-snoc m.prev head xs head new r.backward r.distinct.0 out;
    distinct =
        ground
          (arith, r.distinct, has-append head xs (new ∷ []), Distinct-snoc xs new r.distinct.1);
    not_null = ground (arith, r.not_null, has-append null xs (new ∷ []));
  }

  -- `list_add` puts it in front.
  pub list_add-Ring :
      (new : ℕ)
      → new ≢ null
      → has new (head ∷ xs) ≡ false
      → Ring (list_add m new head) head (new ∷ xs)
  unfolding list_add
  list_add-Ring new ne out = record {
    forward = Forward-cons m.next head xs head new r.forward r.distinct.0 out;
    backward = Backward-cons m.next m.prev head xs head new r.forward r.backward r.distinct out;
    distinct = ground (arith, r.distinct);
    not_null = ground (arith, r.not_null);
  }

  -- `list_del` takes an entry of a ring out, and keeps the order of the others.
  pub list_del-Ring : (e : ℕ) → has e xs ≡ true → Ring (list_del m e) head (erase e xs)
  unfolding list_del
  list_del-Ring e h = record {
    forward = Forward-del m.next m.prev head e xs head r.forward r.backward r.distinct h;
    backward = Backward-del m.next m.prev head e xs head r.forward r.backward r.distinct h;
    distinct =
        ground (arith, r.distinct, has-erase-false head e xs, Distinct-erase e xs r.distinct.1);
    not_null = ground (arith, r.not_null, has-erase-false null e xs);
  }

  -- These write at no address that is neither the entry nor one of the ring.
  pub list_add_tail_same :
      (new a : ℕ) → a ≢ new → has a (head ∷ xs) ≡ false → SameAt m (list_add_tail m new head) a
  unfolding list_add_tail
  list_add_tail_same new a ne out = ground (arith, has-prev_head, elsewhere)
    where
      elsewhere : a ≢ m.prev head
      elsewhere e = ground (arith, subst (λ x. has x (head ∷ xs) ≡ true) (sym e) has-prev_head)

  pub list_del_same :
      (e a : ℕ) → has e xs ≡ true → has a (head ∷ xs) ≡ false → SameAt m (list_del m e) a
  unfolding list_del
  list_del_same e a h out = ground (arith, before, after, inside)
    where
      before : a ≢ m.prev e
      before q = ground (
        arith,
        subst (λ x. has x (head ∷ xs) ≡ true) (sym q) (has-prev m.prev head xs head e r.backward h),
      )

      after : a ≢ m.next e
      after q = ground (
        arith,
        subst (λ x. has x (head ∷ xs) ≡ true) (sym q)
            (has-next m.next head xs head e r.forward (ground arith)),
      )

      inside : a ≢ e
      inside q = ground (arith, subst (λ x. has x xs ≡ true) (sym q) h)

  -- `list_empty` tells whether the ring has an entry.
  pub list_empty-nil : list_empty m head ≡ is_nil xs
  unfolding list_empty
  list_empty-nil = go xs r.forward r.distinct
    where
      go :
          (ys : List ℕ)
          → Forward m.next head ys head
          → Distinct (head ∷ ys)
          → (m.next head == head) ≡ is_nil ys
      go [] f d = ground arith
      go (y ∷ ys) f d = ground arith

  -- `list_first` is the oldest entry, or the head itself.
  pub list_first-head_or : list_first m head ≡ head_or head xs
  list_first-head_or = go xs r.forward
    where
      go : (ys : List ℕ) → Forward m.next head ys head → m.next head ≡ head_or head ys
      go [] f = f
      go (y ∷ ys) f = f.0

  -- `list_is_last` tells of an entry whether it is the youngest: nothing follows it.
  pub list_is_last-nil :
      (ys zs : List ℕ) (e : ℕ) → xs ≡ ys ++ e ∷ zs → list_is_last m e head ≡ is_nil zs
  unfolding list_is_last
  list_is_last-nil ys zs e split =
      go ys head (subst (λ l. Forward m.next head l head) split r.forward)
        (subst (λ l. Distinct (head ∷ l)) split r.distinct).0
    where
      go :
          (ys : List ℕ) (a : ℕ)
          → Forward m.next a (ys ++ e ∷ zs) head
          → has head (ys ++ e ∷ zs) ≡ false
          → (m.next e == head) ≡ is_nil zs
      go [] a f out = at_end zs f.1 (ground arith)
        where
          at_end :
              (zs : List ℕ)
              → Forward m.next e zs head
              → has head zs ≡ false
              → (m.next e == head) ≡ is_nil zs
          at_end [] f out = ground arith
          at_end (z ∷ zs) f out = ground arith
      go (y ∷ ys) a f out = go ys y f.1 (ground arith)
