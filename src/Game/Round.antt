-- ===== src/Game/Round.antt =====
-- One round of gameThread of user.c, and the steps of the game.
pub mod Reach
use so2_joan_erik.Common.{
  ℕ, ◌+◌, ◌-◌, Bool, true, false, ◌&&◌, ◌||◌, not, if◌then◌else◌, ltb, ◌/◌, ◌≡◌, pos,
}
use so2_joan_erik.Screen.{Screen, sys_gotoxy}
use so2_joan_erik.Game.Loops.{Grid}
use so2_joan_erik.Game.Pixels.{
  Pixel, size_x_dragon, size_y_dragon, size_x_enemigo, size_y_enemigo, size_x_diamante,
  size_y_diamante, size_x_winner, size_y_winner, size_x_loser, size_y_loser,
}
use so2_joan_erik.Game.Field.{rows, cols, crea_mapa, posicion_valida}
use so2_joan_erik.Game.Paint.{pinta_pixel, pinta_mapa, pinta_dragon_izquierda, pinta_trozo_mapa}
use so2_joan_erik.Game.Sprites.Loser.{crea_loser}
use so2_joan_erik.Game.Sprites.Winner.{crea_winner}
use so2_joan_erik.Game.Sprites.Dragon.{crea_dragon}
use so2_joan_erik.Game.Sprites.Enemigo.{crea_enemigo}
use so2_joan_erik.Game.Sprites.Diamante.{crea_diamante}
use so2_joan_erik.Game.Play.{
  CharacterState, st_up, st_down, st_left, st_right, st_stop, left, right, is_left, Character, Game,
  tecla, mover_proyectiles, mueve_enemigos, hay_colision_enemigo, hay_colision_diamante,
  max_proyectiles,
}

unfoldable pub pinta_diamantes : Game → Game
pinta_diamantes g = record g {
  screen =
      pinta_pixel 70 (rows - 8) size_x_diamante size_y_diamante g.diamante
        (pinta_pixel 5 (rows - 8) size_x_diamante size_y_diamante g.diamante g.screen);
}

abbrev pub goto : ℕ → ℕ → Screen → Screen
goto x y s = (sys_gotoxy s (pos x) (pos y)).1

unfoldable pub pinta_enemigo1 : Game → Game
pinta_enemigo1 g = if g.enemigo1muerto then g else record g {
  screen = pinta_pixel g.enemigo1.x g.enemigo1.y size_x_enemigo size_y_enemigo g.enemigo (
      pinta_trozo_mapa g.mapa g.x_ant_enemigo1 g.y_ant_enemigo1 size_x_enemigo size_y_enemigo
        (goto g.x_ant_enemigo1 g.y_ant_enemigo1 g.screen));
  x_ant_enemigo1 = g.enemigo1.x;
  y_ant_enemigo1 = g.enemigo1.y;
}

unfoldable pub pinta_enemigo2 : Game → Game
pinta_enemigo2 g = if g.enemigo2muerto then g else record g {
  screen = pinta_pixel g.enemigo2.x g.enemigo2.y size_x_enemigo size_y_enemigo g.enemigo (
      pinta_trozo_mapa g.mapa g.x_ant_enemigo2 g.y_ant_enemigo2 size_x_enemigo size_y_enemigo
        (goto g.x_ant_enemigo2 g.y_ant_enemigo2 g.screen));
  x_ant_enemigo2 = g.enemigo2.x;
  y_ant_enemigo2 = g.enemigo2.y;
}

unfoldable pub ronda_enemigos : Game → Game
ronda_enemigos g =
    if not g.enemigo1muerto || not g.enemigo2muerto
    then pinta_enemigo2 (pinta_enemigo1 (mueve_enemigos g))
    else g

-- The switch on the player's state.
abbrev pub step : CharacterState → Character → Character
step st_up p = record p { y = p.y - 1 }
step st_down p = record p { y = p.y + 1 }
step st_left p = record p { x = p.x - 1 }
step st_right p = record p { x = p.x + 1 }
step st_stop p = p

-- The player moves, unless a wall is there.
unfoldable pub mueve_player : Game → Game
mueve_player g =
    let p = step g.player.state g.player in
    if posicion_valida g.mapa p.x p.y size_x_dragon size_y_dragon
    then record g { player = p }
    else record g { player = record p { x = g.x_ant_player; y = g.y_ant_player } }

unfoldable pub borra_player : Game → Game
borra_player g = record g {
  screen =
      pinta_trozo_mapa g.mapa g.x_ant_player g.y_ant_player size_x_dragon size_y_dragon
        (goto g.x_ant_player g.y_ant_player g.screen);
}

unfoldable pub pinta_player : Game → Game
pinta_player g =
    let p = g.player in
    record g {
      screen =
          if is_left p.dir
          then pinta_dragon_izquierda g.dragon p.x p.y g.screen
          else pinta_pixel p.x p.y size_x_dragon size_y_dragon g.dragon g.screen;
      x_ant_player = p.x;
      y_ant_player = p.y;
      player = record p { state = st_stop };
    }

-- The tests at the end of a round.
unfoldable pub fin : Game → Game
fin g =
    if (hay_colision_enemigo g 1 && not g.enemigo1muerto)
      || (hay_colision_enemigo g 2 && not g.enemigo2muerto)
    then record g {
      screen = pinta_pixel 17 4 size_x_loser size_y_loser g.loser g.screen;
      game_thread_muerto = true;
    }
    else if hay_colision_diamante g 5 (rows - 8) || hay_colision_diamante g 70 (rows - 8)
    then record g {
      screen = pinta_pixel 20 4 size_x_winner size_y_winner g.winner g.screen;
      game_thread_muerto = true;
    }
    else g

unfoldable pub ronda : Game → Game
ronda g = fin (
    pinta_player
      (mueve_player (borra_player (ronda_enemigos (mover_proyectiles (pinta_diamantes g))))))

-- What main sets up, in memory that held `g`.
unfoldable pub inicio : Game → Game
inicio g =
    let m = crea_mapa g.mapa in
    let enemy1 : Character = record (g.enemigo1) { x = 13; y = rows - 9; dir = right } in
    let enemy2 : Character = record (g.enemigo2) { x = 60; y = rows - 9; dir = left } in
    record {
      player = record { x = cols / 2; y = rows - 9; dir = right; state = st_stop };
      enemigo1 = enemy1;
      enemigo2 = enemy2;
      proyectiles = λ i.
          let p = g.proyectiles i in
          if ltb i max_proyectiles then record p { activo = false } else p;
      enemigo1muerto = false;
      enemigo2muerto = false;
      game_thread_muerto = false;
      contador_enemigos = 0;
      mapa = m;
      dragon = crea_dragon g.dragon;
      enemigo = crea_enemigo g.enemigo;
      diamante = crea_diamante g.diamante;
      winner = crea_winner g.winner;
      loser = crea_loser g.loser;
      screen = pinta_mapa m g.screen;
      x_ant_player = cols / 2;
      y_ant_player = rows - 9;
      x_ant_enemigo1 = 13;
      y_ant_enemigo1 = rows - 9;
      x_ant_enemigo2 = 60;
      y_ant_enemigo2 = rows - 9;
    }

-- The steps of the game, until it is over.
pub data Reaches (g0 : Game) : Game → Type 0 where
  start : Reaches g0 (inicio g0)
  key : (c : ℕ) → {g : Game} → g.game_thread_muerto ≡ false → Reaches g0 g → Reaches g0 (tecla c g)
  round : {g : Game} → g.game_thread_muerto ≡ false → Reaches g0 g → Reaches g0 (ronda g)
