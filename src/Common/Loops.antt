-- ===== src/Common/Loops.antt =====
-- The two forms of the loops that count up.
use Prim.Native.Nat.{ℕ, zero, suc, ◌+◌, ◌≤◌}
use mathlib.Core.Path.{◌≡◌, refl, ◌∙◌}
use mathlib.Core.Bool.{true}
use native.Mathlib.Omega.{arith}
use so2_joan_erik.Common.Tests.{ltb, if◌then◌else◌}

module _ {S : Type 0} where
  -- `n` rounds of `for (i = i0; i < i0 + n; ++i)`
  unfoldable pub for_up : ℕ → ℕ → (ℕ → S → S) → S → S
  for_up zero i body s = s
  for_up (suc n) i body s = for_up n (i + 1) body (body i s)

  -- The same with a second condition: `(i < i0 + n) && (i < limit)`
  unfoldable pub for_below : ℕ → ℕ → ℕ → (ℕ → S → S) → S → S
  for_below limit zero i body s = s
  for_below limit (suc n) i body s =
      let rest = for_below limit n (i + 1) body in if ltb i limit then rest (body i s) else s

  -- Below the limit the second condition changes nothing.
  pub for_below-up :
      (limit n i : ℕ) (body : ℕ → S → S) (s : S)
      → i + n ≤ limit
      → for_below limit n i body s ≡ for_up n i body s
  unfolding for_up for_below
  for_below-up limit zero i body s h = refl
  for_below-up limit (suc n) i body s h =
      let here : ltb i limit ≡ true = ground arith in
      rw here (for_below-up limit n (i + 1) body (body i s) (omega arith))

-- What no round changes, the loop does not change.
pub for_up-keeps :
    {S X : Type 0} (f : S → X) (body : ℕ → S → S) (keeps : (i : ℕ) (s : S) → f (body i s) ≡ f s)
    (n i : ℕ) (s : S)
    → f (for_up n i body s) ≡ f s
unfolding for_up
for_up-keeps f body keeps zero i s = refl
for_up-keeps f body keeps (suc n) i s = for_up-keeps f body keeps n (i + 1) (body i s) ∙ keeps i s
