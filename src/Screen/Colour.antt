-- ===== src/Screen/Colour.antt =====
-- The colours of a cell: a word is the character, the foreground and the background.
use Prim.Native.Nat.{bit_or}
use so2_joan_erik.Common.{
  ℕ, zero, suc, ◌+◌, ◌*◌, ◌%◌, ◌/◌, ◌<◌, ◌≤◌, ◌≡◌, refl, Bool, true, ◌&&◌, arith, ◌==◌, ==→eq,
  Bool-cases, inl, inr, ℤ, pos, ◌<ℤ◌, ◌⊎◌,
}
use so2_joan_erik.Screen.{Screen, attribute, cell_word, sys_set_color, einval}

-- `p` holds of the numbers below the bound: a table, by computation.
holds_below : (ℕ → Bool) → ℕ → Bool
holds_below p zero = true
holds_below p (suc bound) = holds_below p bound && p bound

holds_below_at : (p : ℕ → Bool) (bound i : ℕ) → i < bound → holds_below p bound ≡ true → p i ≡ true
unfolding holds_below
holds_below_at p zero i lt table = absurd (omega arith)
holds_below_at p (suc bound) i lt table = elim (Bool-cases (i == bound)) [
  | inl e ↦ let at : i ≡ bound = ==→eq i bound e in rw at (ground (arith, table))
  | inr e ↦ holds_below_at p bound i (ground arith) (ground (arith, table))
]

attribute_table :
    holds_below (λ fg. holds_below (λ bg. attribute fg bg == (fg + 16 * bg) * 256) 16) 16 ≡ true
unfolding holds_below attribute
attribute_table = refl

attribute_eq : (fg bg : ℕ) → fg < 16 → bg < 16 → attribute fg bg ≡ (fg + 16 * bg) * 256
attribute_eq fg bg hf hb =
    ==→eq _ _ (holds_below_at _ 16 bg hb (holds_below_at _ 16 fg hf attribute_table))

or_table : holds_below (λ c. holds_below (λ a. bit_or c (a * 256) == c + a * 256) 256) 256 ≡ true
unfolding holds_below
or_table = refl

or_eq : (c a : ℕ) → c < 256 → a < 256 → bit_or c (a * 256) ≡ c + a * 256
or_eq c a hc ha = ==→eq _ _ (holds_below_at _ 256 a ha (holds_below_at _ 256 c hc or_table))

-- From a cell the character, the foreground and the background can be read back, if both colours
-- have four bits.
pub cell_word_fields :
    (fg bg c : ℕ)
    → fg < 16
    → bg < 16
    → c < 256
    → (cell_word fg bg c % 256 ≡ c)
      × (cell_word fg bg c / 256 % 16 ≡ fg)
      × (cell_word fg bg c / 4096 ≡ bg)
unfolding cell_word
cell_word_fields fg bg c hf hb hc =
    let same : c % 256 ≡ c = omega arith in
    let word : bit_or (c % 256) (attribute fg bg) ≡ c + (fg + 16 * bg) * 256 =
      rw (attribute_eq fg bg hf hb, same) (or_eq c (fg + 16 * bg) hc (omega arith)) in
    rw word (omega arith)

-- set_color accepts the colours 0 to 16 and stores them; it refuses any other with -EINVAL and
-- changes nothing.
pub sys_set_color_on :
    (s : Screen) (fg bg : ℕ)
    → fg ≤ 16
    → bg ≤ 16
    → sys_set_color s (pos fg) (pos bg) ≡ (pos 0, record s { foreground = fg; background = bg })
unfolding sys_set_color
sys_set_color_on s fg bg hf hb = ground arith

pub sys_set_color_off :
    (s : Screen) (fg bg : ℤ)
    → (fg <ℤ pos 0) ⊎ (bg <ℤ pos 0) ⊎ (pos 16 <ℤ fg) ⊎ (pos 16 <ℤ bg)
    → sys_set_color s fg bg ≡ (einval, s)
unfolding sys_set_color
sys_set_color_off s fg bg off = ground arith

-- The colour 16, which set_color lets pass, is not shown: the cell has foreground 0, and an even
-- background reads as the next one.
colour_16_table :
    holds_below (λ b. holds_below (λ c. cell_word 16 (2 * b) c == cell_word 0 (2 * b + 1) c) 256) 8
    ≡ true
unfolding holds_below cell_word
colour_16_table = refl

pub cell_word_16 : (b c : ℕ) → b < 8 → c < 256 → cell_word 16 (2 * b) c ≡ cell_word 0 (2 * b + 1) c
cell_word_16 b c hb hc =
    ==→eq _ _ (holds_below_at _ 256 c hc (holds_below_at _ 8 b hb colour_16_table))
