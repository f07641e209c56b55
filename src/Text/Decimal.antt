-- ===== src/Text/Decimal.antt =====
-- itoa prints the decimal digits of a number.
use so2_joan_erik.Common.{ℕ, zero, suc, ◌+◌, ◌/◌, ◌%◌, ◌<◌, ◌≡◌, ◌≢◌, some}
use so2_joan_erik.Text.{Buffer, set_char, itoa_digits}
use so2_joan_erik.Text.Read.{dec_value, read_number}

-- From index `i` on stand `n` digits of `a`, the lowest first.
abbrev Digits : ℕ → ℕ → ℕ → Buffer → Type 0
Digits zero a i b = a ≡ 0
Digits (suc n) a i b = (b i ≡ a % 10 + b'0') × Digits n (a / 10) (i + 1) b

-- A round of the loop swaps two characters.
abbrev swap : ℕ → ℕ → Buffer → Buffer
swap x y b = set_char (set_char b x (b y)) y (b x)

-- The text of a number: digits that read as the number, the first of them not 0 unless it is
-- the only one, and a zero behind them.
pub record Prints (c : Buffer) (a : ℕ) : Type 0 where
  pub count : ℕ
  pub reads : read_number dec_value 10 count c ≡ some a
  pub ends : c count ≡ 0
  pub short : 1 < count → c 0 ≢ b'0'

module _ (a : ℕ) (b : Buffer) where
  written : ℕ × Buffer
  written = itoa_digits a a 0 b
