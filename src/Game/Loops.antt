-- ===== src/Game/Loops.antt =====
-- The grids of user.c, and the double loops that fill them.
use so2_joan_erik.Common.{
  for_up, ℕ, zero, suc, ◌+◌, ◌≡◌, ◌∙◌, Bool, ◌&&◌, ltb, leb, ◌==◌, if◌then◌else◌, arith,
}

-- A two-dimensional array, by row and column; what it holds out of range is never allocated.
abbrev pub Grid : Type 0 → Type 0
Grid A = ℕ → ℕ → A

abbrev pub put : {A : Type 0} → Grid A → ℕ → ℕ → A → Grid A
put g i j v a b = if a == i && b == j then v else g a b

module _ {A : Type 0} (c : ℕ → ℕ → Bool) (v : ℕ → ℕ → A) where
  -- The body of a double loop over a grid: an assignment under a condition.
  abbrev pub put_if : ℕ → ℕ → Grid A → Grid A
  put_if i j g = if c i j then put g i j (v i j) else g

  abbrev pub fill_row : ℕ → ℕ → Grid A → Grid A
  fill_row w i g = for_up w 0 (put_if i) g

  row_value :
      (n j i a b : ℕ) (g : Grid A)
      → for_up n j (put_if i) g a b
        ≡ (if a == i && leb j b && ltb b (j + n) && c i b then v i b else g a b)
  unfolding for_up
  row_value zero j i a b g = ground arith
  row_value (suc n) j i a b g = row_value n (j + 1) i a b _ ∙ step
    where
      step :
          (if a == i && leb (j + 1) b && ltb b (j + 1 + n) && c i b
            then v i b
            else put_if i j g a b)
          ≡ (if a == i && leb j b && ltb b (j + suc n) && c i b then v i b else g a b)
      step = ground arith

  rows_value :
      (h i w a b : ℕ) (g : Grid A)
      → for_up h i (fill_row w) g a b
        ≡ (if leb i a && ltb a (i + h) && ltb b w && c a b then v a b else g a b)
  unfolding for_up
  rows_value zero i w a b g = ground arith
  rows_value (suc h) i w a b g =
      rows_value h (i + 1) w a b (fill_row w i g) ∙ ground (arith, row_value w 0 i a b g)

  -- What a cell holds after the double loop.
  pub fill-value :
      (h w a b : ℕ) (g : Grid A)
      → for_up h 0 (fill_row w) g a b ≡ (if ltb a h && ltb b w && c a b then v a b else g a b)
  fill-value h w a b g = rows_value h 0 w a b g ∙ ground arith
