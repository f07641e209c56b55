-- ===== src/Game.antt =====
-- The game of user.c.
pub mod Loops
pub mod Pixels
pub mod Sprites
pub mod Field
pub mod Paint
pub mod Play
pub mod Round
