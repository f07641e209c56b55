-- ===== src/Tests/Play.antt =====
-- The theorems on the game, at concrete inputs.
use so2_joan_erik.Common.{ℕ, ◌+◌, ◌*◌, ◌≡◌, refl, ◌↔◌, true, false, arith}
use so2_joan_erik.Screen.{Screen}
use so2_joan_erik.Game.Loops.{Grid}
use so2_joan_erik.Game.Pixels.{Pixel}
use so2_joan_erik.Game.Field.{crea_mapa, posicion_valida}
use so2_joan_erik.Game.Field.Walls.{posicion_valida-player}
use so2_joan_erik.Game.Paint.{pinta_pixel, pinta_trozo_mapa, pinta_mapa}
use so2_joan_erik.Game.Paint.Cells.{word, pinta_pixel-cells}
use so2_joan_erik.Game.Paint.Erase.{Shows, pinta_mapa-Shows, pinta_trozo_mapa-erases}
use so2_joan_erik.Game.Play.{
  Character, Game, left, st_stop, hay_colision_enemigo, hay_colision_diamante,
}
use so2_joan_erik.Game.Play.Bounds.{Good}
use so2_joan_erik.Game.Play.Collisions.{Apart, hay_colision-Apart}
use so2_joan_erik.Game.Round.{inicio, start, round, ronda}
use so2_joan_erik.Game.Round.Reach.{Reaches-Good}

abbrev memory : Grid ℕ
memory i j = 0

abbrev dots : Grid Pixel
dots i j = record { ch = b'V'; fg = 7; bg = 0 }

abbrev dark : Screen
dark = record { x = 0; y = 0; foreground = 2; background = 0; cells = λ i. 0 }

abbrev someone : Character
someone = record { x = 10; y = 8; state = st_stop; dir = left }

abbrev before : Game
before = record {
  player = someone;
  enemigo1 = someone;
  enemigo2 = someone;
  proyectiles = λ i. record { x = 0; y = 0; activo = false; dir = left };
  enemigo1muerto = false;
  enemigo2muerto = false;
  game_thread_muerto = false;
  contador_enemigos = 0;
  mapa = memory;
  dragon = dots;
  enemigo = dots;
  diamante = dots;
  winner = dots;
  loser = dots;
  screen = dark;
  x_ant_player = 0;
  y_ant_player = 0;
  x_ant_enemigo1 = 0;
  y_ant_enemigo1 = 0;
  x_ant_enemigo2 = 0;
  y_ant_enemigo2 = 0;
}

Reaches-Good_example : Good memory (ronda (inicio before))
unfolding inicio
Reaches-Good_example = Reaches-Good {g0 = before} (λ i h. refl) (round refl start)

posicion_valida-player_example : posicion_valida (crea_mapa memory) 40 16 10 8 ≡ true
posicion_valida-player_example = posicion_valida-player memory 40 16 (omega arith) (omega arith)

pinta_pixel-cells_example : (pinta_pixel 10 5 4 3 dots dark).cells (6 * 80 + 11) ≡ word (dots 1 1)
pinta_pixel-cells_example =
    pinta_pixel-cells 10 5 4 3 dots dark 6 11 (omega arith) (omega arith) (omega arith)
      (λ i j hi hj. refl)

pinta_trozo_mapa-erases_example :
    Shows memory
      (pinta_trozo_mapa memory 10 5 4 3 (pinta_pixel 10 5 4 3 dots (pinta_mapa memory dark)))
pinta_trozo_mapa-erases_example =
    pinta_trozo_mapa-erases memory 10 5 4 3 dots (pinta_mapa memory dark) (omega arith)
      (omega arith) (λ i j hi hj. refl) (pinta_mapa-Shows memory dark)

hay_colision-Apart_example :
    ((hay_colision_enemigo before 1 ≡ false) ↔ Apart someone 10 8 7 7)
    × ((hay_colision_enemigo before 2 ≡ false) ↔ Apart someone 10 8 7 7)
    × ((x y : ℕ) → (hay_colision_diamante before x y ≡ false) ↔ Apart someone x y 5 4)
hay_colision-Apart_example = hay_colision-Apart before
