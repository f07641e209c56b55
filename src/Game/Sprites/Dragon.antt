-- ===== src/Game/Sprites/Dragon.antt =====
-- The sprite of creaDragon.
use so2_joan_erik.Common.{List, [], ◌∷◌}
use so2_joan_erik.Game.Loops.{Grid}
use so2_joan_erik.Game.Pixels.{
  Pixel, Dot, dot, clear, draw_all, size_x_dragon, size_y_dragon, blanco, negro, rojo, verde,
}

abbrev pub dots_dragon : List Dot
dots_dragon =
    dot 0 2 b' ' negro rojo
    ∷ dot 0 3 b' ' negro rojo
    ∷ dot 0 4 b' ' negro rojo
    ∷ dot 1 3 b' ' negro rojo
    ∷ dot 2 1 b' ' negro rojo
    ∷ dot 2 2 b' ' negro rojo
    ∷ dot 3 2 b' ' negro rojo
    ∷ dot 4 1 b' ' negro rojo
    ∷ dot 4 3 b' ' negro rojo
    ∷ dot 5 0 b' ' negro rojo
    ∷ dot 5 2 b' ' negro rojo
    ∷ dot 5 3 b' ' negro rojo
    ∷ dot 5 4 b' ' negro rojo
    ∷ dot 6 2 b' ' negro rojo
    ∷ dot 6 3 b' ' negro rojo
    ∷ dot 6 6 b' ' negro rojo
    ∷ dot 7 5 b' ' negro rojo
    ∷ dot 7 6 b' ' negro rojo
    ∷ dot 7 7 b' ' negro rojo
    ∷ dot 7 9 b' ' negro rojo
    ∷ dot 0 5 b' ' negro verde
    ∷ dot 0 6 b' ' negro verde
    ∷ dot 0 7 b' ' negro verde
    ∷ dot 0 8 b' ' negro verde
    ∷ dot 1 4 b' ' negro verde
    ∷ dot 1 5 b' ' negro verde
    ∷ dot 1 7 b' ' negro verde
    ∷ dot 2 3 b' ' negro verde
    ∷ dot 2 4 b' ' negro verde
    ∷ dot 2 5 b' ' negro verde
    ∷ dot 2 7 b' ' negro verde
    ∷ dot 2 9 b' ' negro verde
    ∷ dot 3 3 b' ' negro verde
    ∷ dot 3 4 b' ' negro verde
    ∷ dot 3 5 b' ' negro verde
    ∷ dot 3 7 b' ' negro verde
    ∷ dot 3 9 b' ' negro verde
    ∷ dot 4 2 b' ' negro verde
    ∷ dot 4 4 b' ' negro verde
    ∷ dot 5 1 b' ' negro verde
    ∷ dot 5 5 b' ' negro verde
    ∷ dot 5 6 b' ' negro verde
    ∷ dot 5 7 b' ' negro verde
    ∷ dot 5 8 b' ' negro verde
    ∷ dot 5 9 b' ' negro verde
    ∷ dot 6 1 b' ' negro verde
    ∷ dot 6 4 b' ' negro verde
    ∷ dot 6 5 b' ' negro verde
    ∷ dot 7 0 b' ' negro verde
    ∷ dot 7 1 b' ' negro verde
    ∷ dot 7 2 b' ' negro verde
    ∷ dot 7 3 b' ' negro verde
    ∷ dot 7 4 b' ' negro verde
    ∷ dot 1 6 b' ' negro blanco
    ∷ dot 1 8 b' ' negro blanco
    ∷ dot 3 6 b' ' negro blanco
    ∷ dot 3 8 b' ' negro blanco
    ∷ dot 4 5 b'V' blanco negro
    ∷ dot 4 6 b'V' blanco negro
    ∷ dot 4 7 b'V' blanco negro
    ∷ dot 4 8 b'V' blanco negro
    ∷ dot 6 7 b' ' negro blanco
    ∷ dot 6 8 b' ' negro blanco
    ∷ dot 7 8 b' ' negro blanco
    ∷ []

unfoldable pub crea_dragon : Grid Pixel → Grid Pixel
crea_dragon g = draw_all dots_dragon (clear size_y_dragon size_x_dragon g)
