-- ===== src/Text/Hex.antt =====
-- stringNumHex prints the eight hexadecimal digits of a word.
use so2_joan_erik.Common.{
  ℕ, zero, suc, ◌+◌, ◌*◌, ◌/◌, ◌%◌, ◌<◌, ◌≤◌, ◌≡◌, refl, arith, some, ap, ◌∙◌,
}
use so2_joan_erik.Text.{Buffer, set_char, hex_digit, hex_loop, string_num_hex}
use so2_joan_erik.Text.Read.{hex_value, read_number, read_number_same}

hex_digit-value : (d : ℕ) → d < 16 → hex_value (hex_digit d) ≡ some d
hex_digit-value d h = ground arith

-- The last `n` hexadecimal digits.
low_digits : ℕ → ℕ → ℕ
low_digits zero num = 0
low_digits (suc n) num = low_digits n (num / 16) * 16 + num % 16

hex_loop_above : (n num : ℕ) (res : Buffer) (j : ℕ) → n ≤ j → hex_loop n num res j ≡ res j
unfolding hex_loop
hex_loop_above zero num res j h = refl
hex_loop_above (suc n) num res j h = ground (
  arith,
  hex_loop_above n (num / 16) (set_char res n (hex_digit (num % 16))) j (omega (arith, h)),
)

hex_loop-read :
    (n num : ℕ) (res : Buffer)
    → read_number hex_value 16 n (hex_loop n num res) ≡ some (low_digits n num)
unfolding hex_loop low_digits
hex_loop-read zero num res = refl
hex_loop-read (suc n) num res =
    let res' : Buffer = set_char res n (hex_digit (num % 16)) in
    let last : hex_loop n (num / 16) res' n ≡ hex_digit (num % 16) =
      hex_loop_above n (num / 16) res' n (omega arith) ∙ ground arith in
    rw (hex_loop-read n (num / 16) res', last, hex_digit-value (num % 16) (omega arith)) refl

low_digits_word : (num : ℕ) → low_digits 8 num ≡ num % 4294967296
unfolding low_digits
low_digits_word num = omega arith

-- The text of stringNumHex reads back as the number, modulo 2 ^ 32; it ends behind its eight digits,
-- and what stands behind that is not written.
pub string_num_hex-read :
    (res : Buffer) (num : ℕ)
    → (read_number hex_value 16 8 (string_num_hex res num) ≡ some (num % 4294967296))
      × (string_num_hex res num 8 ≡ 0)
      × ((j : ℕ) → 8 < j → string_num_hex res num j ≡ res j)
unfolding string_num_hex
string_num_hex-read res num = (
  read_number_same hex_value 16 8 (hex_loop 8 num res) (string_num_hex res num)
        (λ j h. ground arith)
      ∙ hex_loop-read 8 num res
      ∙ ap some (low_digits_word num),
  refl,
  λ j h. ground (arith, hex_loop_above 8 num res j (omega (arith, h))),
)
