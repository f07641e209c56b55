-- ===== src/Game/Pixels.antt =====
-- The pixels of user.c, the sizes of its sprites, and the way in which they are drawn into arrays.
use so2_joan_erik.Common.{
  for_up, ℕ, ◌<◌, ◌≡◌, refl, ◌∙◌, List, [], ◌∷◌, Bool, true, false, ◌&&◌, not, ltb, ◌==◌, arith,
  Bool-cases, inl, inr,
}
use so2_joan_erik.Game.Loops.{Grid, put, fill_row, fill-value}

pub record Pixel : Type 0 where
  pub ch : ℕ
  pub fg : ℕ
  pub bg : ℕ

abbrev pub negro : ℕ
negro = 0

abbrev pub verde : ℕ
verde = 2

abbrev pub cian : ℕ
cian = 3

abbrev pub rojo : ℕ
rojo = 4

abbrev pub rosa : ℕ
rosa = 5

abbrev pub marron : ℕ
marron = 6

abbrev pub blanco : ℕ
blanco = 7

abbrev pub size_y_dragon : ℕ
size_y_dragon = 8

abbrev pub size_x_dragon : ℕ
size_x_dragon = 10

abbrev pub size_y_enemigo : ℕ
size_y_enemigo = 7

abbrev pub size_x_enemigo : ℕ
size_x_enemigo = 7

abbrev pub size_y_diamante : ℕ
size_y_diamante = 4

abbrev pub size_x_diamante : ℕ
size_x_diamante = 5

abbrev pub size_x_winner : ℕ
size_x_winner = 40

abbrev pub size_y_winner : ℕ
size_y_winner = 5

abbrev pub size_x_loser : ℕ
size_x_loser = 43

abbrev pub size_y_loser : ℕ
size_y_loser = 5

-- One assignment `a[row][column] = (pixel){ch, fg, bg}`.
pub record Dot : Type 0 where
  pub row : ℕ
  pub column : ℕ
  pub pix : Pixel

abbrev pub dot : ℕ → ℕ → ℕ → ℕ → ℕ → Dot
dot i j c f b = record { row = i; column = j; pix = record { ch = c; fg = f; bg = b } }

abbrev pub blank : Pixel
blank = record { ch = b' '; fg = 0; bg = 0 }

-- The double loop that every sprite starts with.
unfoldable pub clear : ℕ → ℕ → Grid Pixel → Grid Pixel
clear h w g = for_up h 0 (fill_row (λ i j. true) (λ i j. blank) w) g

unfoldable pub draw_all : List Dot → Grid Pixel → Grid Pixel
draw_all [] g = g
draw_all (d ∷ ds) g = draw_all ds (put g d.row d.column d.pix)

-- The kernel takes the colours, and the character is printed where the cursor is.
abbrev pub paintable : Pixel → Bool
paintable p = ltb p.fg 16 && ltb p.bg 16 && not (p.ch == b'\n')

abbrev pub dots_fit : ℕ → ℕ → List Dot → Bool
dots_fit h w [] = true
dots_fit h w (d ∷ ds) = ltb d.row h && ltb d.column w && paintable d.pix && dots_fit h w ds

draw_all-inside :
    (h w : ℕ) (ds : List Dot) (g : Grid Pixel) (i j : ℕ)
    → dots_fit h w ds ≡ true
    → paintable (g i j) ≡ true
    → paintable (draw_all ds g i j) ≡ true
unfolding draw_all
draw_all-inside h w [] g i j fit p = p
draw_all-inside h w (d ∷ ds) g i j fit p =
    draw_all-inside h w ds _ i j (ground (arith, fit))
      (elim (Bool-cases (i == d.row && j == d.column)) [
        | inl e ↦ rw e (ground (arith, fit))
        | inr e ↦ rw e p
      ])

draw_all-outside :
    (h w : ℕ) (ds : List Dot) (g : Grid Pixel) (i j : ℕ)
    → dots_fit h w ds ≡ true
    → (ltb i h && ltb j w) ≡ false
    → draw_all ds g i j ≡ g i j
unfolding draw_all
draw_all-outside h w [] g i j fit out = refl
draw_all-outside h w (d ∷ ds) g i j fit out =
    draw_all-outside h w ds _ i j (ground (arith, fit)) out ∙ ground (arith, fit, out)

-- `f` fills an array of `h` rows and `w` columns with pixels that can be painted, and writes
-- nowhere else, whatever the memory held before.
pub record Fills (h w : ℕ) (f : Grid Pixel → Grid Pixel) : Type 0 where
  pub inside : (g : Grid Pixel) (i j : ℕ) → i < h → j < w → paintable (f g i j) ≡ true
  pub outside : (g : Grid Pixel) (i j : ℕ) → (ltb i h && ltb j w) ≡ false → f g i j ≡ g i j

pub draw_all-Fills :
    (h w : ℕ) (ds : List Dot) → dots_fit h w ds ≡ true → Fills h w (λ g. draw_all ds (clear h w g))
unfolding clear
draw_all-Fills h w ds fit = record {
  inside = λ g i j hi hj.
      draw_all-inside h w ds _ i j fit
        (rw (fill-value (λ i j. true) (λ i j. blank) h w i j g) (ground (arith, hi, hj)));
  outside = λ g i j out.
      draw_all-outside h w ds _ i j fit out
      ∙ fill-value (λ i j. true) (λ i j. blank) h w i j g
      ∙ ground (arith, out);
}
