-- ===== src/Game/Field/Walls.antt =====
-- Where the walls of the map are, and where a character fits between them.
use so2_joan_erik.Common.{
  for_up, ◌↔◌, ==→eq, ℕ, zero, suc, ◌+◌, ◌-◌, ◌<◌, ◌≤◌, ◌≡◌, refl, ◌≢◌, ◌∙◌, Bool, true, false,
  ◌&&◌, ◌||◌, not, ltb, leb, ◌==◌, if◌then◌else◌, arith, Bool-cases, inl, inr,
}
use so2_joan_erik.Game.Loops.{Grid, fill_row, fill-value}
use so2_joan_erik.Game.Field.{
  rows, cols, escalones, on_border, crea_mapa, row_valid, rows_valid, posicion_valida,
}

-- The cells that the rounds `i`, ..., `i + n - 1` write.
step_cell : ℕ → ℕ → ℕ → ℕ → Bool
step_cell i n a b =
    (a == 23
      && ((leb (i + 1) b && leb b (i + n)) || (leb b (78 - i) && ltb 78 (b + i + n) && leb b 78)))
    || (a == 22
        && ((leb (i + 1) b && leb b (i + n) && leb b 12)
            || (leb b (78 - i) && ltb 78 (b + i + n) && leb 67 b)))

step_cell-zero : (i a b : ℕ) → i + 0 ≤ 24 → step_cell i 0 a b ≡ false
unfolding step_cell
step_cell-zero i a b h = ground (arith, h)

-- What one round writes.
round_cell : ℕ → ℕ → ℕ → Bool
round_cell i a b = (a == 23 || (a == 22 && ltb i 12)) && (b == i + 1 || b == 78 - i)

escalones-round :
    (i a b : ℕ) (m : Grid ℕ) → escalones i m a b ≡ (if round_cell i a b then b'0' else m a b)
unfolding escalones round_cell
escalones-round i a b m = elim (Bool-cases (ltb i 12)) [
  | inl e ↦ rw e (ground arith)
  | inr e ↦ rw e (ground arith)
]

step_cell-round :
    (i n a b : ℕ)
    → i + suc n ≤ 24
    → step_cell i (suc n) a b ≡ (step_cell (i + 1) n a b || round_cell i a b)
unfolding step_cell round_cell
step_cell-round i n a b h = elim (Bool-cases (a == 23)) [
  | inl e ↦ let p : a ≡ 23 = ==→eq a 23 e in rw p (ground (arith, h))
  | inr e ↦
      rw e
        (elim (Bool-cases (a == 22)) [ inl e' ↦ rw e' (ground (arith, h)) | inr e' ↦ rw e' refl ])
]

escalones-value :
    (n i a b : ℕ) (m : Grid ℕ)
    → i + n ≤ 24
    → for_up n i escalones m a b ≡ (if step_cell i n a b then b'0' else m a b)
unfolding for_up
escalones-value zero i a b m h = ground (arith, step_cell-zero i a b h)
escalones-value (suc n) i a b m h =
    escalones-value n (i + 1) a b (escalones i m) (omega arith)
    ∙ rw (escalones-round i a b m, step_cell-round i n a b h)
        (two_tests (step_cell (i + 1) n a b) (round_cell i a b) (m a b))
  where
    two_tests :
        (p r : Bool) (v : ℕ)
        → (if p then b'0' else (if r then b'0' else v)) ≡ (if p || r then b'0' else v)
    two_tests true r v = refl
    two_tests false r v = refl

-- The border, two columns wide at the sides and one row high above and below, and the two steps at
-- the bottom.
abbrev pub is_wall : ℕ → ℕ → Bool
is_wall i j =
    on_border i j || (i == 23 && (leb j 24 || leb 55 j)) || (i == 22 && (leb j 12 || leb 67 j))

-- Inside its array creaMapa writes '0' on the walls and '1' elsewhere, and outside it nothing,
-- whatever the memory held before.
pub crea_mapa-value :
    (map : Grid ℕ) (i j : ℕ)
    → crea_mapa map i j
      ≡ (if ltb i rows && ltb j cols then (if is_wall i j then b'0' else b'1') else map i j)
unfolding crea_mapa step_cell
crea_mapa-value map i j =
    let free = for_up rows 0 (fill_row (λ i j. true) (λ i j. b'1') cols) map in
    let bordered = for_up rows 0 (fill_row on_border (λ i j. b'0') cols) free in
    escalones-value 24 0 i j bordered (omega arith)
    ∙ rw
        (
          fill-value on_border (λ i j. b'0') rows cols i j free,
          fill-value (λ i j. true) (λ i j. b'1') rows cols i j map,
        )
        steps
  where
    steps :
        (if step_cell 0 24 i j
          then b'0'
          else (if ltb i rows && ltb j cols && on_border i j
              then b'0'
              else (if ltb i rows && ltb j cols && true then b'1' else map i j)))
        ≡ (if ltb i rows && ltb j cols then (if is_wall i j then b'0' else b'1') else map i j)
    steps = ground arith

row_valid-free :
    (map : Grid ℕ) (i n j b : ℕ)
    → row_valid map i n j ≡ true
    → j ≤ b
    → b < j + n
    → b < cols
    → map i b ≢ b'0'
unfolding row_valid
row_valid-free map i zero j b h lo hi lim = absurd (omega arith)
row_valid-free map i (suc n) j b h lo hi lim = elim (Bool-cases (j == b)) [
  | inl e ↦ ground (arith, h)
  | inr e ↦ row_valid-free map i n (j + 1) b (ground (arith, h)) (ground arith) (omega arith) lim
]

rows_valid-free :
    (map : Grid ℕ) (w x n i a b : ℕ)
    → rows_valid map w x n i ≡ true
    → i ≤ a
    → a < i + n
    → a < rows
    → x ≤ b
    → b < x + w
    → b < cols
    → map a b ≢ b'0'
unfolding rows_valid
rows_valid-free map w x zero i a b h lo hi lim left right side = absurd (omega arith)
rows_valid-free map w x (suc n) i a b h lo hi lim left right side = elim (Bool-cases (i == a)) [
  | inl e ↦ ground (arith, row_valid-free map i w x b)
  | inr e ↦
      rows_valid-free map w x n (i + 1) a b (ground (arith, h)) (ground arith) (omega arith) lim
        left right side
]

row_valid-intro :
    (map : Grid ℕ) (i n j : ℕ)
    → ((b : ℕ) → j ≤ b → b < j + n → b < cols → map i b ≢ b'0')
    → row_valid map i n j ≡ true
unfolding row_valid
row_valid-intro map i zero j h = refl
row_valid-intro map i (suc n) j h =
    let rest =
      row_valid-intro map i n (j + 1) (λ b lo hi lim. h b (omega arith) (omega arith) lim) in
    ground (arith, h j (omega arith) (omega arith))

rows_valid-intro :
    (map : Grid ℕ) (w x n i : ℕ)
    → ((a b : ℕ) → i ≤ a → a < i + n → a < rows → x ≤ b → b < x + w → b < cols → map a b ≢ b'0')
    → rows_valid map w x n i ≡ true
unfolding rows_valid
rows_valid-intro map w x zero i h = refl
rows_valid-intro map w x (suc n) i h = elim (Bool-cases (ltb i rows)) [
  | inr e ↦ rw e refl
  | inl e ↦
      rw (e, row_valid-intro map i w x (λ b. h i b (omega arith) (omega arith) (ground arith)))
        (rows_valid-intro map w x n (i + 1) λ a b lo hi. h a b (omega arith) (omega arith))
]

-- For a position on the screen, posicionValida tells whether the part of the rectangle that is on
-- the screen is free of walls.
pub posicion_valida-free :
    (map : Grid ℕ) (x y w h : ℕ)
    → (posicion_valida map x y w h ≡ true)
      ↔ ((i j : ℕ) → y ≤ i → i < y + h → i < rows → x ≤ j → j < x + w → j < cols → map i j ≢ b'0')
unfolding posicion_valida
posicion_valida-free map x y w h =
    (λ v i j lo hi lim. rows_valid-free map w x h y i j v lo hi lim, rows_valid-intro map w x h y)

-- Where the player's rectangle of 10 columns and 8 rows fits.
abbrev pub player_fits : ℕ → ℕ → Bool
player_fits x y =
    leb 2 x
    && leb x 68
    && leb 1 y
    && leb y 16
    && (not (y == 16) || (leb 25 x && leb x 45))
    && (not (y == 15) || (leb 13 x && leb x 57))

-- On the map of creaMapa, for a position on the screen, posicionValida with the player's size says
-- exactly where the whole rectangle lies between the walls.
pub posicion_valida-player :
    (map : Grid ℕ) (x y : ℕ)
    → x < cols
    → y < rows
    → posicion_valida (crea_mapa map) x y 10 8 ≡ player_fits x y
posicion_valida-player map x y hx hy = elim (Bool-cases (player_fits x y)) [
  | inl e ↦
      rw e (f.1 λ i j lo hi lim lo' hi' lim'. rw (crea_mapa-value map i j) (ground (arith, e)))
  | inr e ↦ elim (Bool-cases (posicion_valida (crea_mapa map) x y 10 8)) [
    | inr v ↦ rw (e, v) refl
    | inl v ↦ absurd (
        ground (
          arith,
          e,
          hx,
          hy,
          blocked v y x,
          blocked v y (x + 9),
          blocked v (y + 7) x,
          blocked v (y + 7) (x + 9),
          blocked v 24 x,
          blocked v y 79,
          blocked v 22 x,
          blocked v 22 (x + 9),
        ))
  ]
]
  where
    f : (posicion_valida (crea_mapa map) x y 10 8 ≡ true) ↔ (
        (i j : ℕ)
        → y ≤ i
        → i < y + 8
        → i < rows
        → x ≤ j
        → j < x + 10
        → j < cols
        → crea_mapa map i j ≢ b'0')
    f = posicion_valida-free (crea_mapa map) x y 10 8

    blocked :
        posicion_valida (crea_mapa map) x y 10 8 ≡ true
        → (i j : ℕ) → y ≤ i
        → i < y + 8
        → i < rows
        → x ≤ j
        → j < x + 10
        → j < cols
        → is_wall i j ≡ false
    blocked v i j lo hi lim lo' hi' lim' =
        ground (arith, f.0 v i j lo hi lim lo' hi' lim', crea_mapa-value map i j)
