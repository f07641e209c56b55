-- ===== src/Text/Length.antt =====
-- strlen finds the first zero.
use so2_joan_erik.Common.{ℕ, zero, suc, ◌+◌, ◌<◌, ◌≤◌, ◌≡◌, ◌≢◌, arith, some, ap, ◌∙◌, subst}
use so2_joan_erik.Text.{Buffer, strlen, strlen_loop}

-- The text ends at `n`: the first zero stands there.
pub record EndsAt (b : Buffer) (n : ℕ) : Type 0 where
  pub zero_at : b n ≡ 0
  pub before : (j : ℕ) → j < n → b j ≢ 0

strlen_loop-some :
    (fuel i d : ℕ) (b : Buffer)
    → b (i + d) ≡ 0
    → ((j : ℕ) → i ≤ j → j < i + d → b j ≢ 0)
    → d < fuel
    → strlen_loop fuel i b ≡ some (i + d)
unfolding strlen_loop
strlen_loop-some zero i d b e before h = absurd (omega (arith, h))
strlen_loop-some (suc f) i zero b e before h =
    ground (arith, ap b {x = i} {y = i + 0} (omega arith), e)
strlen_loop-some (suc f) i (suc d) b e before h = ground (
  arith,
  before i,
  strlen_loop-some f (i + 1) d b (ap b {x = i + 1 + d} {y = i + suc d} (omega arith) ∙ e)
      (λ j l m. before j (omega (arith, l)) (omega (arith, m))) (omega (arith, h)),
)

-- strlen with fuel for the whole text ends, and returns the number of characters before the zero.
pub strlen-EndsAt : (fuel n : ℕ) (b : Buffer) → EndsAt b n → n < fuel → strlen fuel b ≡ some n
unfolding strlen
strlen-EndsAt fuel n b t h =
    subst (λ x. strlen_loop fuel 0 b ≡ some x) {x = 0 + n} {y = n} (omega arith)
      (strlen_loop-some fuel 0 n b (ap b {x = 0 + n} {y = n} (omega arith) ∙ t.zero_at)
        (λ j l m. t.before j (omega (arith, m))) h)
