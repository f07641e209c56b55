-- ===== src/Game/Field.antt =====
-- The map of user.c: creaMapa and posicionValida.
pub mod Walls
use so2_joan_erik.Common.{
  for_up, ℕ, zero, suc, ◌+◌, ◌-◌, ◌<◌, ◌≤◌, ◌≡◌, refl, ◌≢◌, ◌∙◌, ap, Bool, true, false, ◌&&◌, ◌||◌,
  not, ltb, leb, ◌==◌, if◌then◌else◌, arith, Bool-cases, inl, inr,
}
use so2_joan_erik.Game.Loops.{Grid, put, fill_row, fill-value}

abbrev pub rows : ℕ
rows = 25

abbrev pub cols : ℕ
cols = 80

-- Round `i` of the last loop of creaMapa: the steps at the bottom.
unfoldable pub escalones : ℕ → Grid ℕ → Grid ℕ
escalones i map =
    let below = put (put map (rows - 2) (i + 1) b'0') (rows - 2) (cols - 2 - i) b'0' in
    if ltb i 12
    then put (put below (rows - 3) (i + 1) b'0') (rows - 3) (cols - 2 - i) b'0'
    else below

abbrev pub on_border : ℕ → ℕ → Bool
on_border i j = ltb i 1 || leb (rows - 1) i || ltb j 2 || leb (cols - 2) j

unfoldable pub crea_mapa : Grid ℕ → Grid ℕ
unfolding escalones
crea_mapa map =
    let free = for_up rows 0 (fill_row (λ i j. true) (λ i j. b'1') cols) map in
    let bordered = for_up rows 0 (fill_row on_border (λ i j. b'0') cols) free in
    for_up 24 0 escalones bordered

-- The loops of posicionValida, with their early return: a row, and then the rows.
unfoldable pub row_valid : Grid ℕ → ℕ → ℕ → ℕ → Bool
row_valid map i zero j = true
row_valid map i (suc n) j =
    let rest = row_valid map i n (j + 1) in
    if ltb j cols then (if map i j == b'0' then false else rest) else true

unfoldable pub rows_valid : Grid ℕ → ℕ → ℕ → ℕ → ℕ → Bool
unfolding row_valid
rows_valid map size_x x zero i = true
rows_valid map size_x x (suc n) i =
    let rest = rows_valid map size_x x n (i + 1) in
    if ltb i rows then (if row_valid map i size_x x then rest else false) else true

unfoldable pub posicion_valida : Grid ℕ → ℕ → ℕ → ℕ → ℕ → Bool
unfolding rows_valid
posicion_valida map x y size_x size_y = rows_valid map size_x x size_y y
