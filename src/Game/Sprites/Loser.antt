-- ===== src/Game/Sprites/Loser.antt =====
-- The sprite of creaLoser.
use so2_joan_erik.Common.{List, [], ◌∷◌}
use so2_joan_erik.Game.Loops.{Grid}
use so2_joan_erik.Game.Pixels.{
  Pixel, Dot, dot, clear, draw_all, size_x_loser, size_y_loser, negro, rojo,
}

abbrev pub dots_loser : List Dot
dots_loser =
    dot 0 0 b' ' negro rojo
    ∷ dot 0 4 b' ' negro rojo
    ∷ dot 0 7 b' ' negro rojo
    ∷ dot 0 8 b' ' negro rojo
    ∷ dot 0 9 b' ' negro rojo
    ∷ dot 0 12 b' ' negro rojo
    ∷ dot 0 16 b' ' negro rojo
    ∷ dot 0 20 b' ' negro rojo
    ∷ dot 0 27 b' ' negro rojo
    ∷ dot 0 28 b' ' negro rojo
    ∷ dot 0 29 b' ' negro rojo
    ∷ dot 0 33 b' ' negro rojo
    ∷ dot 0 34 b' ' negro rojo
    ∷ dot 0 35 b' ' negro rojo
    ∷ dot 0 36 b' ' negro rojo
    ∷ dot 0 38 b' ' negro rojo
    ∷ dot 0 39 b' ' negro rojo
    ∷ dot 0 40 b' ' negro rojo
    ∷ dot 0 41 b' ' negro rojo
    ∷ dot 0 42 b' ' negro rojo
    ∷ dot 1 1 b' ' negro rojo
    ∷ dot 1 3 b' ' negro rojo
    ∷ dot 1 6 b' ' negro rojo
    ∷ dot 1 10 b' ' negro rojo
    ∷ dot 1 12 b' ' negro rojo
    ∷ dot 1 16 b' ' negro rojo
    ∷ dot 1 20 b' ' negro rojo
    ∷ dot 1 26 b' ' negro rojo
    ∷ dot 1 32 b' ' negro rojo
    ∷ dot 1 38 b' ' negro rojo
    ∷ dot 2 2 b' ' negro rojo
    ∷ dot 2 6 b' ' negro rojo
    ∷ dot 2 10 b' ' negro rojo
    ∷ dot 2 12 b' ' negro rojo
    ∷ dot 2 16 b' ' negro rojo
    ∷ dot 2 20 b' ' negro rojo
    ∷ dot 2 26 b' ' negro rojo
    ∷ dot 2 30 b' ' negro rojo
    ∷ dot 2 33 b' ' negro rojo
    ∷ dot 2 34 b' ' negro rojo
    ∷ dot 2 35 b' ' negro rojo
    ∷ dot 2 38 b' ' negro rojo
    ∷ dot 2 39 b' ' negro rojo
    ∷ dot 2 40 b' ' negro rojo
    ∷ dot 3 2 b' ' negro rojo
    ∷ dot 3 6 b' ' negro rojo
    ∷ dot 3 10 b' ' negro rojo
    ∷ dot 3 12 b' ' negro rojo
    ∷ dot 3 16 b' ' negro rojo
    ∷ dot 3 20 b' ' negro rojo
    ∷ dot 3 26 b' ' negro rojo
    ∷ dot 3 30 b' ' negro rojo
    ∷ dot 3 36 b' ' negro rojo
    ∷ dot 3 38 b' ' negro rojo
    ∷ dot 4 2 b' ' negro rojo
    ∷ dot 4 7 b' ' negro rojo
    ∷ dot 4 8 b' ' negro rojo
    ∷ dot 4 9 b' ' negro rojo
    ∷ dot 4 13 b' ' negro rojo
    ∷ dot 4 14 b' ' negro rojo
    ∷ dot 4 15 b' ' negro rojo
    ∷ dot 4 20 b' ' negro rojo
    ∷ dot 4 21 b' ' negro rojo
    ∷ dot 4 22 b' ' negro rojo
    ∷ dot 4 23 b' ' negro rojo
    ∷ dot 4 24 b' ' negro rojo
    ∷ dot 4 27 b' ' negro rojo
    ∷ dot 4 28 b' ' negro rojo
    ∷ dot 4 29 b' ' negro rojo
    ∷ dot 4 32 b' ' negro rojo
    ∷ dot 4 33 b' ' negro rojo
    ∷ dot 4 34 b' ' negro rojo
    ∷ dot 4 35 b' ' negro rojo
    ∷ dot 4 38 b' ' negro rojo
    ∷ dot 4 39 b' ' negro rojo
    ∷ dot 4 40 b' ' negro rojo
    ∷ dot 4 41 b' ' negro rojo
    ∷ dot 4 42 b' ' negro rojo
    ∷ []

unfoldable pub crea_loser : Grid Pixel → Grid Pixel
crea_loser g = draw_all dots_loser (clear size_y_loser size_x_loser g)
