-- ===== src/Text.antt =====
-- Numbers as text: itoa and strlen of libc.c, and stringNumHex of interrupt.c.
--
-- A buffer is a function from indices to characters. The loop of itoa over the digits runs on fuel:
-- the number, which falls in each round. The loop of strlen runs on fuel given from outside.
pub mod Length
pub mod Read
pub mod Hex
pub mod Decimal
use so2_joan_erik.Common.{
  ℕ, zero, suc, ◌+◌, ◌-◌, ◌/◌, ◌%◌, ◌==◌, ltb, if◌then◌else◌, Option, none, some, ℤ, pos, pos_part,
  eqb_ℤ,
}

abbrev pub Buffer : Type 0
Buffer = ℕ → ℕ

abbrev pub set_char : Buffer → ℕ → ℕ → Buffer
set_char b i c j = if j == i then c else b j

-- The loop `while (a > 0)`, from index `i` on: the index behind the digits, and the buffer.
unfoldable pub itoa_digits : ℕ → ℕ → ℕ → Buffer → ℕ × Buffer
itoa_digits zero a i b = (i, b)
itoa_digits (suc f) a i b =
    let rest = itoa_digits f (a / 10) (i + 1) (set_char b i (a % 10 + b'0')) in
    if a == 0 then (i, b) else rest

-- `n` rounds of the loop that turns the `i` characters round, from round `i1` on.
unfoldable pub itoa_reverse : ℕ → ℕ → ℕ → Buffer → Buffer
itoa_reverse zero i1 i b = b
itoa_reverse (suc n) i1 i b =
    itoa_reverse n (i1 + 1) i (set_char (set_char b i1 (b (i - i1 - 1))) (i - i1 - 1) (b i1))

unfoldable pub itoa : ℤ → Buffer → Buffer
itoa a b =
    let d = itoa_digits (pos_part a) (pos_part a) 0 b in
    if eqb_ℤ a (pos 0)
    then set_char (set_char b 0 b'0') 1 0
    else set_char (itoa_reverse (d.0 / 2) 0 d.0 d.1) d.0 0

unfoldable pub strlen_loop : ℕ → ℕ → Buffer → Option ℕ
strlen_loop zero i a = none
strlen_loop (suc f) i a = let rest = strlen_loop f (i + 1) a in if a i == 0 then some i else rest

unfoldable pub strlen : ℕ → Buffer → Option ℕ
strlen fuel a = strlen_loop fuel 0 a

-- The character of `mapaHex` at a digit.
abbrev pub hex_digit : ℕ → ℕ
hex_digit d = if ltb d 10 then b'0' + d else b'A' + (d - 10)

-- `n` rounds of the loop of stringNumHex, the first at index `n - 1`.
unfoldable pub hex_loop : ℕ → ℕ → Buffer → Buffer
hex_loop zero num res = res
hex_loop (suc n) num res = hex_loop n (num / 16) (set_char res n (hex_digit (num % 16)))

unfoldable pub string_num_hex : Buffer → ℕ → Buffer
string_num_hex res num = set_char (hex_loop 8 num res) 8 0
