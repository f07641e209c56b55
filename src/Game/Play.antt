-- ===== src/Game/Play.antt =====
-- The state of the game and the functions of user.c that move it.
--
-- Coordinates are natural numbers: the subtractions stop at 0 where the C goes below it. A round of
-- gameThread and the handling of a key are steps that no other step interrupts. The memory that the
-- end of the game frees, and the semaphore that the threads wake each other with, are left out.
pub mod Bounds
pub mod Collisions
use so2_joan_erik.Common.{
  ℕ, zero, suc, ◌+◌, ◌-◌, Bool, true, false, ◌&&◌, ◌||◌, not, ltb, leb, ◌==◌, if◌then◌else◌,
}
use so2_joan_erik.Screen.{Screen, sys_gotoxy}
use so2_joan_erik.Game.Loops.{Grid}
use so2_joan_erik.Game.Pixels.{
  Pixel, negro, rosa, marron, blanco, size_x_dragon, size_y_dragon, size_x_enemigo, size_y_enemigo,
  size_x_diamante, size_y_diamante, size_x_winner, size_y_winner, size_x_loser, size_y_loser,
}
use so2_joan_erik.Game.Field.{rows, posicion_valida}
use so2_joan_erik.Game.Paint.{paint_at, look, pinta_pixel, pinta_dragon_izquierda, pinta_trozo_mapa}

pub data CharacterState : Type 0 where
  st_up st_down st_left st_right st_stop : CharacterState

pub data CharacterDirection : Type 0 where
  left right : CharacterDirection

abbrev pub is_left : CharacterDirection → Bool
is_left left = true
is_left right = false

pub record Character : Type 0 where
  pub x : ℕ
  pub y : ℕ
  pub state : CharacterState
  pub dir : CharacterDirection

pub record Proyectil : Type 0 where
  pub x : ℕ
  pub y : ℕ
  pub activo : Bool
  pub dir : CharacterDirection

-- The globals of the game, and the locals of gameThread, which hold the last positions painted.
pub record Game : Type 0 where
  pub player : Character
  pub enemigo1 : Character
  pub enemigo2 : Character
  pub proyectiles : ℕ → Proyectil
  pub enemigo1muerto : Bool
  pub enemigo2muerto : Bool
  pub game_thread_muerto : Bool
  pub contador_enemigos : ℕ
  pub mapa : Grid ℕ
  pub dragon : Grid Pixel
  pub enemigo : Grid Pixel
  pub diamante : Grid Pixel
  pub winner : Grid Pixel
  pub loser : Grid Pixel
  pub screen : Screen
  pub x_ant_player : ℕ
  pub y_ant_player : ℕ
  pub x_ant_enemigo1 : ℕ
  pub y_ant_enemigo1 : ℕ
  pub x_ant_enemigo2 : ℕ
  pub y_ant_enemigo2 : ℕ

abbrev pub max_proyectiles : ℕ
max_proyectiles = 10

abbrev pub set_proyectil : (ℕ → Proyectil) → ℕ → Proyectil → ℕ → Proyectil
set_proyectil ps i p j = if j == i then p else ps j

-- The projectile that the player throws: from the side that the player looks at.
unfoldable pub thrown : Character → Proyectil
thrown player = record {
  x = if is_left player.dir then player.x - 1 else player.x + size_x_dragon;
  y = player.y + 4;
  activo = true;
  dir = player.dir;
}

-- The loop of creaProyectil: the first inactive entry.
unfoldable pub crea_loop : ℕ → ℕ → Game → Game
crea_loop zero i g = g
crea_loop (suc n) i g =
    let rest = crea_loop n (i + 1) g in
    if (g.proyectiles i).activo
    then rest
    else record g { proyectiles = set_proyectil g.proyectiles i (thrown g.player) }

unfoldable pub crea_proyectil : Game → Game
crea_proyectil g = crea_loop max_proyectiles 0 g

-- keyboardThread, for a character read.
unfoldable pub tecla : ℕ → Game → Game
tecla c g =
    let p = g.player in
    if c == b'w'
    then record g { player = record p { state = st_up } }
    else if c == b's'
    then record g { player = record p { state = st_down } }
    else if c == b'a'
    then record g { player = record p { state = st_left; dir = left } }
    else if c == b'd'
    then record g { player = record p { state = st_right; dir = right } }
    else if c == b'C'
    then crea_proyectil g
    else record g { player = record p { state = st_stop } }

-- A point in the rectangle of an enemy.
abbrev pub hits : ℕ → ℕ → Character → Bool
hits x y e = leb e.x x && ltb x (e.x + size_x_enemigo) && leb e.y y && ltb y (e.y + size_y_enemigo)

-- The projectile `p` one column on, and inactive if there is a wall.
unfoldable pub advance : Grid ℕ → Proyectil → Proyectil
advance mapa p =
    let x' = if is_left p.dir then p.x - 1 else p.x + 1 in
    record p { x = x'; activo = not (mapa p.y x' == b'0') }

-- The two tests of moverProyectiles for an enemy hit.
unfoldable pub hit1 : ℕ → Game → Game
hit1 i g =
    let p = g.proyectiles i in
    if hits p.x p.y g.enemigo1 && not g.enemigo1muerto
    then record g {
      enemigo1muerto = true;
      proyectiles = set_proyectil g.proyectiles i (record p { activo = false });
      screen =
          pinta_trozo_mapa g.mapa g.enemigo1.x g.enemigo1.y size_x_enemigo size_y_enemigo g.screen;
    }
    else g

unfoldable pub hit2 : ℕ → Game → Game
hit2 i g =
    let p = g.proyectiles i in
    if hits p.x p.y g.enemigo2 && not g.enemigo2muerto
    then record g {
      enemigo2muerto = true;
      proyectiles = set_proyectil g.proyectiles i (record p { activo = false });
      screen =
          pinta_trozo_mapa g.mapa g.enemigo2.x g.enemigo2.y size_x_enemigo size_y_enemigo g.screen;
    }
    else g

-- What a round of moverProyectiles does first with an active projectile.
unfoldable pub mover_uno : ℕ → Game → Game
mover_uno i g =
    let p = g.proyectiles i in
    let erased = paint_at p.x p.y (look (g.mapa p.y p.x)) g.screen in
    let p' = advance g.mapa p in
    record g {
      proyectiles = set_proyectil g.proyectiles i p';
      screen =
          if p'.activo
          then paint_at p'.x p'.y (record { ch = b' '; fg = blanco; bg = rosa }) erased
          else erased;
    }

-- One round of moverProyectiles.
unfoldable pub mover_ronda : ℕ → Game → Game
mover_ronda i g = if (g.proyectiles i).activo then hit2 i (hit1 i (mover_uno i g)) else g

unfoldable pub mover_loop : ℕ → ℕ → Game → Game
mover_loop zero i g = g
mover_loop (suc n) i g = mover_loop n (i + 1) (mover_ronda i g)

unfoldable pub mover_proyectiles : Game → Game
mover_proyectiles g = mover_loop max_proyectiles 0 g

abbrev pub turn : Character → Character
turn e = record e { dir = if is_left e.dir then right else left }

abbrev pub walk : Character → Character
walk e = record e { x = if is_left e.dir then e.x - 1 else e.x + 1 }

unfoldable pub mueve_enemigos : Game → Game
mueve_enemigos g =
    if leb 5 g.contador_enemigos
    then record g { contador_enemigos = 0; enemigo1 = turn g.enemigo1; enemigo2 = turn g.enemigo2 }
    else record g {
      contador_enemigos = g.contador_enemigos + 1;
      enemigo1 = walk g.enemigo1;
      enemigo2 = walk g.enemigo2;
    }

-- Whether the player's rectangle and another one overlap.
abbrev pub overlap : Character → ℕ → ℕ → ℕ → ℕ → Bool
overlap player x y w h = not (
    ltb (player.x + size_x_dragon - 1) x
    || ltb (x + w - 1) player.x
    || ltb (player.y + size_y_dragon - 1) y
    || ltb (y + h - 1) player.y)

unfoldable pub hay_colision_enemigo : Game → ℕ → Bool
hay_colision_enemigo g num_enemigo =
    let e = if num_enemigo == 2 then g.enemigo2 else g.enemigo1 in
    overlap g.player e.x e.y size_x_enemigo size_y_enemigo

unfoldable pub hay_colision_diamante : Game → ℕ → ℕ → Bool
hay_colision_diamante g dx1 dy1 = overlap g.player dx1 dy1 size_x_diamante size_y_diamante
