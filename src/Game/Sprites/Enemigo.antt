-- ===== src/Game/Sprites/Enemigo.antt =====
-- The sprite of creaEnemigo.
use so2_joan_erik.Common.{List, [], ◌∷◌}
use so2_joan_erik.Game.Loops.{Grid}
use so2_joan_erik.Game.Pixels.{
  Pixel, Dot, dot, clear, draw_all, size_x_enemigo, size_y_enemigo, blanco, marron, negro, rojo,
}

abbrev pub dots_enemigo : List Dot
dots_enemigo =
    dot 0 2 b' ' negro marron
    ∷ dot 0 3 b' ' negro marron
    ∷ dot 0 4 b' ' negro marron
    ∷ dot 1 1 b' ' negro marron
    ∷ dot 1 5 b' ' negro marron
    ∷ dot 2 0 b' ' negro marron
    ∷ dot 2 3 b' ' negro marron
    ∷ dot 2 6 b' ' negro marron
    ∷ dot 3 0 b' ' negro marron
    ∷ dot 3 3 b' ' negro marron
    ∷ dot 3 6 b' ' negro marron
    ∷ dot 4 1 b' ' negro marron
    ∷ dot 4 2 b' ' negro marron
    ∷ dot 4 3 b' ' negro marron
    ∷ dot 4 4 b' ' negro marron
    ∷ dot 4 5 b' ' negro marron
    ∷ dot 2 1 b' ' negro blanco
    ∷ dot 2 5 b' ' negro blanco
    ∷ dot 3 1 b' ' negro blanco
    ∷ dot 3 2 b' ' negro blanco
    ∷ dot 3 4 b' ' negro blanco
    ∷ dot 3 5 b' ' negro blanco
    ∷ dot 5 1 b' ' negro blanco
    ∷ dot 5 2 b' ' negro blanco
    ∷ dot 5 3 b' ' negro blanco
    ∷ dot 5 4 b' ' negro blanco
    ∷ dot 5 5 b' ' negro blanco
    ∷ dot 6 3 b' ' negro blanco
    ∷ dot 0 0 b' ' negro blanco
    ∷ dot 0 1 b' ' negro blanco
    ∷ dot 0 5 b' ' negro blanco
    ∷ dot 0 6 b' ' negro blanco
    ∷ dot 1 2 b' ' negro blanco
    ∷ dot 1 3 b' ' negro blanco
    ∷ dot 1 4 b' ' negro blanco
    ∷ dot 6 0 b' ' negro rojo
    ∷ dot 6 1 b' ' negro rojo
    ∷ dot 6 2 b' ' negro rojo
    ∷ dot 6 4 b' ' negro rojo
    ∷ dot 6 5 b' ' negro rojo
    ∷ dot 6 6 b' ' negro rojo
    ∷ []

unfoldable pub crea_enemigo : Grid Pixel → Grid Pixel
crea_enemigo g = draw_all dots_enemigo (clear size_y_enemigo size_x_enemigo g)
