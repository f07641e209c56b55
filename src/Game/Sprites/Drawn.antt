-- ===== src/Game/Sprites/Drawn.antt =====
-- What the functions that draw the sprites write.
use so2_joan_erik.Common.{refl}
use so2_joan_erik.Game.Pixels.{
  Fills, draw_all-Fills, size_y_dragon, size_x_dragon, size_y_enemigo, size_x_enemigo,
  size_y_diamante, size_x_diamante, size_x_winner, size_y_winner, size_x_loser, size_y_loser,
}
use so2_joan_erik.Game.Sprites.Loser.{dots_loser, crea_loser}
use so2_joan_erik.Game.Sprites.Winner.{dots_winner, crea_winner}
use so2_joan_erik.Game.Sprites.Dragon.{dots_dragon, crea_dragon}
use so2_joan_erik.Game.Sprites.Enemigo.{dots_enemigo, crea_enemigo}
use so2_joan_erik.Game.Sprites.Diamante.{dots_diamante, crea_diamante}

pub crea_dragon-Fills : Fills size_y_dragon size_x_dragon crea_dragon
unfolding crea_dragon
crea_dragon-Fills = draw_all-Fills size_y_dragon size_x_dragon dots_dragon refl

pub crea_enemigo-Fills : Fills size_y_enemigo size_x_enemigo crea_enemigo
unfolding crea_enemigo
crea_enemigo-Fills = draw_all-Fills size_y_enemigo size_x_enemigo dots_enemigo refl

pub crea_diamante-Fills : Fills size_y_diamante size_x_diamante crea_diamante
unfolding crea_diamante
crea_diamante-Fills = draw_all-Fills size_y_diamante size_x_diamante dots_diamante refl

pub crea_winner-Fills : Fills size_y_winner size_x_winner crea_winner
unfolding crea_winner
crea_winner-Fills = draw_all-Fills size_y_winner size_x_winner dots_winner refl

pub crea_loser-Fills : Fills size_y_loser size_x_loser crea_loser
unfolding crea_loser
crea_loser-Fills = draw_all-Fills size_y_loser size_x_loser dots_loser refl

-- Each of the five sprites is drawn inside its array, all of it, in pixels that can be painted, and
-- nothing else is written.
pub crea_sprites-Fills :
    Fills size_y_dragon size_x_dragon crea_dragon
    × Fills size_y_enemigo size_x_enemigo crea_enemigo
    × Fills size_y_diamante size_x_diamante crea_diamante
    × Fills size_y_winner size_x_winner crea_winner
    × Fills size_y_loser size_x_loser crea_loser
crea_sprites-Fills = (
  crea_dragon-Fills, crea_enemigo-Fills, crea_diamante-Fills, crea_winner-Fills, crea_loser-Fills,
)
