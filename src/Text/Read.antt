-- ===== src/Text/Read.antt =====
-- Numbers read back from text: the specification of the routines that print them.
use so2_joan_erik.Common.{
  ℕ, zero, suc, ◌+◌, ◌-◌, ◌*◌, ◌<◌, ◌≡◌, refl, arith, Option, some, none, leb, ◌&&◌, if◌then◌else◌,
}
use so2_joan_erik.Text.{Buffer}

abbrev pub dec_value : ℕ → Option ℕ
dec_value c = if leb b'0' c && leb c b'9' then some (c - b'0') else none

abbrev pub hex_value : ℕ → Option ℕ
hex_value c = if leb b'A' c && leb c b'F' then some (c - b'A' + 10) else dec_value c

-- A number and one digit more, if both are there.
abbrev pub append_digit : ℕ → Option ℕ → Option ℕ → Option ℕ
append_digit base (some v) (some d) = some (v * base + d)
append_digit base none d = none
append_digit base (some v) none = none

-- The number that the first `n` characters are, if they are digits all.
abbrev pub read_number : (ℕ → Option ℕ) → ℕ → ℕ → Buffer → Option ℕ
read_number value base zero b = some 0
read_number value base (suc n) b = append_digit base (read_number value base n b) (value (b n))

pub read_number_same :
    (value : ℕ → Option ℕ) (base n : ℕ) (b c : Buffer)
    → ((j : ℕ) → j < n → c j ≡ b j)
    → read_number value base n c ≡ read_number value base n b
read_number_same value base zero b c same = refl
read_number_same value base (suc n) b c same =
    rw (read_number_same value base n b c (λ j h. same j (omega (arith, h))), same n (omega arith))
      refl
