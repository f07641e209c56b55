-- ===== src/Game/Sprites.antt =====
-- The sprites of user.c.
pub mod Loser
pub mod Winner
pub mod Dragon
pub mod Enemigo
pub mod Diamante
pub mod Drawn
