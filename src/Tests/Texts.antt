-- ===== src/Tests/Texts.antt =====
-- The theorems on text, at concrete inputs.
use so2_joan_erik.Common.{ℕ, ◌≡◌, refl, ◌<◌, ◌%◌, some, arith, ◌==◌, if◌then◌else◌}
use so2_joan_erik.Text.{Buffer, strlen, string_num_hex}
use so2_joan_erik.Text.Length.{strlen-EndsAt}
use so2_joan_erik.Text.Read.{read_number, hex_value}
use so2_joan_erik.Text.Hex.{string_num_hex-read}

abbrev two_letters : Buffer
two_letters i = if i == 0 then b'h' else if i == 1 then b'i' else 0

strlen-EndsAt_example : strlen 9 two_letters ≡ some 2
strlen-EndsAt_example =
    strlen-EndsAt 9 2 two_letters
      (record { zero_at = refl; before = λ j h e. ground (arith, h, e) }) (omega arith)

string_num_hex-read_example :
    (read_number hex_value 16 8 (string_num_hex two_letters 0x1BEEF) ≡ some (0x1BEEF % 4294967296))
    × (string_num_hex two_letters 0x1BEEF 8 ≡ 0)
    × ((j : ℕ) → 8 < j → string_num_hex two_letters 0x1BEEF j ≡ two_letters j)
string_num_hex-read_example = string_num_hex-read two_letters 0x1BEEF
