-- ===== src/Game/Sprites/Diamante.antt =====
-- The sprite of creaDiamante.
use so2_joan_erik.Common.{List, [], ◌∷◌}
use so2_joan_erik.Game.Loops.{Grid}
use so2_joan_erik.Game.Pixels.{
  Pixel, Dot, dot, clear, draw_all, size_x_diamante, size_y_diamante, blanco, cian, negro,
}

abbrev pub dots_diamante : List Dot
dots_diamante =
    dot 0 1 b' ' negro cian
    ∷ dot 0 2 b' ' negro cian
    ∷ dot 0 3 b' ' negro cian
    ∷ dot 1 0 b' ' negro cian
    ∷ dot 1 1 b' ' negro blanco
    ∷ dot 1 2 b' ' negro cian
    ∷ dot 1 3 b' ' negro cian
    ∷ dot 1 4 b' ' negro cian
    ∷ dot 2 1 b' ' negro cian
    ∷ dot 2 2 b' ' negro blanco
    ∷ dot 2 3 b' ' negro cian
    ∷ dot 3 2 b' ' negro cian
    ∷ []

unfoldable pub crea_diamante : Grid Pixel → Grid Pixel
crea_diamante g = draw_all dots_diamante (clear size_y_diamante size_x_diamante g)
