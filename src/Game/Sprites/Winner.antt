-- ===== src/Game/Sprites/Winner.antt =====
-- The sprite of creaWinner.
use so2_joan_erik.Common.{List, [], ◌∷◌}
use so2_joan_erik.Game.Loops.{Grid}
use so2_joan_erik.Game.Pixels.{
  Pixel, Dot, dot, clear, draw_all, size_x_winner, size_y_winner, blanco, negro,
}

abbrev pub dots_winner : List Dot
dots_winner =
    dot 0 0 b' ' negro blanco
    ∷ dot 0 4 b' ' negro blanco
    ∷ dot 0 6 b' ' negro blanco
    ∷ dot 0 7 b' ' negro blanco
    ∷ dot 0 8 b' ' negro blanco
    ∷ dot 0 9 b' ' negro blanco
    ∷ dot 0 10 b' ' negro blanco
    ∷ dot 0 12 b' ' negro blanco
    ∷ dot 0 16 b' ' negro blanco
    ∷ dot 0 18 b' ' negro blanco
    ∷ dot 0 22 b' ' negro blanco
    ∷ dot 0 24 b' ' negro blanco
    ∷ dot 0 25 b' ' negro blanco
    ∷ dot 0 26 b' ' negro blanco
    ∷ dot 0 27 b' ' negro blanco
    ∷ dot 0 28 b' ' negro blanco
    ∷ dot 0 30 b' ' negro blanco
    ∷ dot 0 31 b' ' negro blanco
    ∷ dot 0 32 b' ' negro blanco
    ∷ dot 0 33 b' ' negro blanco
    ∷ dot 0 37 b' ' negro blanco
    ∷ dot 0 38 b' ' negro blanco
    ∷ dot 0 39 b' ' negro blanco
    ∷ dot 1 0 b' ' negro blanco
    ∷ dot 1 4 b' ' negro blanco
    ∷ dot 1 8 b' ' negro blanco
    ∷ dot 1 12 b' ' negro blanco
    ∷ dot 1 13 b' ' negro blanco
    ∷ dot 1 16 b' ' negro blanco
    ∷ dot 1 18 b' ' negro blanco
    ∷ dot 1 19 b' ' negro blanco
    ∷ dot 1 22 b' ' negro blanco
    ∷ dot 1 24 b' ' negro blanco
    ∷ dot 1 30 b' ' negro blanco
    ∷ dot 1 34 b' ' negro blanco
    ∷ dot 1 37 b' ' negro blanco
    ∷ dot 1 38 b' ' negro blanco
    ∷ dot 1 39 b' ' negro blanco
    ∷ dot 2 0 b' ' negro blanco
    ∷ dot 2 2 b' ' negro blanco
    ∷ dot 2 4 b' ' negro blanco
    ∷ dot 2 8 b' ' negro blanco
    ∷ dot 2 12 b' ' negro blanco
    ∷ dot 2 14 b' ' negro blanco
    ∷ dot 2 16 b' ' negro blanco
    ∷ dot 2 18 b' ' negro blanco
    ∷ dot 2 20 b' ' negro blanco
    ∷ dot 2 22 b' ' negro blanco
    ∷ dot 2 24 b' ' negro blanco
    ∷ dot 2 25 b' ' negro blanco
    ∷ dot 2 26 b' ' negro blanco
    ∷ dot 2 30 b' ' negro blanco
    ∷ dot 2 31 b' ' negro blanco
    ∷ dot 2 32 b' ' negro blanco
    ∷ dot 2 33 b' ' negro blanco
    ∷ dot 2 37 b' ' negro blanco
    ∷ dot 2 38 b' ' negro blanco
    ∷ dot 2 39 b' ' negro blanco
    ∷ dot 3 0 b' ' negro blanco
    ∷ dot 3 1 b' ' negro blanco
    ∷ dot 3 2 b' ' negro blanco
    ∷ dot 3 3 b' ' negro blanco
    ∷ dot 3 4 b' ' negro blanco
    ∷ dot 3 8 b' ' negro blanco
    ∷ dot 3 12 b' ' negro blanco
    ∷ dot 3 15 b' ' negro blanco
    ∷ dot 3 16 b' ' negro blanco
    ∷ dot 3 18 b' ' negro blanco
    ∷ dot 3 21 b' ' negro blanco
    ∷ dot 3 22 b' ' negro blanco
    ∷ dot 3 24 b' ' negro blanco
    ∷ dot 3 30 b' ' negro blanco
    ∷ dot 3 32 b' ' negro blanco
    ∷ dot 4 0 b' ' negro blanco
    ∷ dot 4 4 b' ' negro blanco
    ∷ dot 4 6 b' ' negro blanco
    ∷ dot 4 7 b' ' negro blanco
    ∷ dot 4 8 b' ' negro blanco
    ∷ dot 4 9 b' ' negro blanco
    ∷ dot 4 10 b' ' negro blanco
    ∷ dot 4 12 b' ' negro blanco
    ∷ dot 4 16 b' ' negro blanco
    ∷ dot 4 18 b' ' negro blanco
    ∷ dot 4 22 b' ' negro blanco
    ∷ dot 4 24 b' ' negro blanco
    ∷ dot 4 25 b' ' negro blanco
    ∷ dot 4 26 b' ' negro blanco
    ∷ dot 4 27 b' ' negro blanco
    ∷ dot 4 28 b' ' negro blanco
    ∷ dot 4 30 b' ' negro blanco
    ∷ dot 4 33 b' ' negro blanco
    ∷ dot 4 37 b' ' negro blanco
    ∷ dot 4 38 b' ' negro blanco
    ∷ dot 4 39 b' ' negro blanco
    ∷ []

unfoldable pub crea_winner : Grid Pixel → Grid Pixel
crea_winner g = draw_all dots_winner (clear size_y_winner size_x_winner g)
