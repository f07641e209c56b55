-- ===== src/Common/Lists.antt =====
-- Lists measured and indexed by native numbers, under the library's names, and lists of numbers
-- as sets.
use Prim.Native.Nat.{ℕ, zero, suc, ◌+◌, ◌<◌}
use mathlib.Core.Path.{◌≡◌, refl, ap}
use mathlib.Core.Logic.{◌≢◌}
use mathlib.Core.Bool.{Bool, false, ◌||◌}
use mathlib.Core.List.{List, [], ◌∷◌, ◌++◌}
use mathlib.Core.Option.{Option, none, some}
use native.Mathlib.Omega.{arith}
use so2_joan_erik.Common.Tests.{◌==◌, if◌then◌else◌}

module _ {ℓ} {A : Type ℓ} where
  abbrev pub length : List A → ℕ
  length [] = 0
  length (x ∷ xs) = suc (length xs)

  abbrev pub get_elem? : List A → ℕ → Option A
  get_elem? [] i = none
  get_elem? (x ∷ xs) zero = some x
  get_elem? (x ∷ xs) (suc i) = get_elem? xs i

  abbrev pub get_or : List A → ℕ → A → A
  get_or [] i d = d
  get_or (x ∷ xs) zero d = x
  get_or (x ∷ xs) (suc i) d = get_or xs i d

  -- A write out of bounds changes nothing.
  abbrev pub set : List A → ℕ → A → List A
  set [] i v = []
  set (x ∷ xs) zero v = v ∷ xs
  set (x ∷ xs) (suc i) v = x ∷ set xs i v

  abbrev pub replicate : ℕ → A → List A
  replicate zero a = []
  replicate (suc n) a = a ∷ replicate n a

  pub get_or-append :
      (xs ys : List A) (i : ℕ) (d : A) → i < length xs → get_or (xs ++ ys) i d ≡ get_or xs i d
  get_or-append [] ys i d h = absurd (omega (arith, h))
  get_or-append (x ∷ xs) ys zero d h = refl
  get_or-append (x ∷ xs) ys (suc i) d h = get_or-append xs ys i d (omega (arith, h))

  pub get_or-append_end : (xs : List A) (y d : A) → get_or (xs ++ y ∷ []) (length xs) d ≡ y
  get_or-append_end [] y d = refl
  get_or-append_end (x ∷ xs) y d = get_or-append_end xs y d

  pub length-append : (xs ys : List A) → length (xs ++ ys) ≡ length xs + length ys
  length-append [] ys = omega arith
  length-append (x ∷ xs) ys = omega (arith, length-append xs ys)

  pub length-set : (xs : List A) (i : ℕ) (v : A) → length (set xs i v) ≡ length xs
  length-set [] i v = refl
  length-set (x ∷ xs) zero v = refl
  length-set (x ∷ xs) (suc i) v = ap suc (length-set xs i v)

  pub get_or-set_self :
      (xs : List A) (i : ℕ) (v d : A) → i < length xs → get_or (set xs i v) i d ≡ v
  get_or-set_self [] i v d h = absurd (omega arith)
  get_or-set_self (x ∷ xs) zero v d h = refl
  get_or-set_self (x ∷ xs) (suc i) v d h = get_or-set_self xs i v d (omega arith)

  pub get_or-set_ne :
      (xs : List A) {i j : ℕ} (v d : A) → i ≢ j → get_or (set xs i v) j d ≡ get_or xs j d
  get_or-set_ne [] v d h = refl
  get_or-set_ne (x ∷ xs) {i = zero} {j = zero} v d h = absurd (h refl)
  get_or-set_ne (x ∷ xs) {i = zero} {j = suc j} v d h = refl
  get_or-set_ne (x ∷ xs) {i = suc i} {j = zero} v d h = refl
  get_or-set_ne (x ∷ xs) {i = suc i} {j = suc j} v d h = get_or-set_ne xs v d (λ e. h (ap suc e))

-- Is the number among those of the list?
abbrev pub has : ℕ → List ℕ → Bool
has a [] = false
has a (x ∷ xs) = (a == x) || has a xs

abbrev pub Distinct : List ℕ → Type 0
Distinct [] = Unit {0}
Distinct (x ∷ xs) = (has x xs ≡ false) × Distinct xs

-- The list without the first occurrence of a number.
abbrev pub erase : ℕ → List ℕ → List ℕ
erase e [] = []
erase e (x ∷ xs) = if e == x then xs else x ∷ erase e xs

pub has-append : (a : ℕ) (xs ys : List ℕ) → has a (xs ++ ys) ≡ (has a xs || has a ys)
has-append a [] ys = refl
has-append a (x ∷ xs) ys = ground (arith, has-append a xs ys)

pub has-erase_ne : (a e : ℕ) (xs : List ℕ) → a ≢ e → has a (erase e xs) ≡ has a xs
has-erase_ne a e [] h = refl
has-erase_ne a e (x ∷ xs) h = ground (arith, has-erase_ne a e xs h)

pub has-erase-false : (a e : ℕ) (xs : List ℕ) → has a xs ≡ false → has a (erase e xs) ≡ false
has-erase-false a e [] h = refl
has-erase-false a e (x ∷ xs) h = ground (arith, has-erase-false a e xs)

pub has-erase_self : (e : ℕ) (xs : List ℕ) → Distinct xs → has e (erase e xs) ≡ false
has-erase_self e [] d = refl
has-erase_self e (x ∷ xs) d = ground (arith, has-erase_self e xs d.1)

pub erase_absent : (e : ℕ) (xs : List ℕ) → has e xs ≡ false → erase e xs ≡ xs
erase_absent e [] h = refl
erase_absent e (x ∷ xs) h = ground (arith, erase_absent e xs)

pub Distinct-erase : (e : ℕ) (xs : List ℕ) → Distinct xs → Distinct (erase e xs)
Distinct-erase e [] d = tt
Distinct-erase e (x ∷ xs) d = ground (arith, Distinct-erase e xs d.1, has-erase-false x e xs d.0)

pub Distinct-snoc : (xs : List ℕ) (a : ℕ) → Distinct xs → has a xs ≡ false → Distinct (xs ++ a ∷ [])
Distinct-snoc [] a d h = ground arith
Distinct-snoc (x ∷ xs) a d h = ground (arith, Distinct-snoc xs a d.1, has-append x xs (a ∷ []))
