-- ===== src/Game/Paint.antt =====
-- The functions of user.c that paint on the screen.
--
-- Each of their rounds calls gotoxy, set_color and write of one character. The checks of sys_write
-- and its copy of the character into the kernel are left out: descriptor 1 and a buffer of one
-- character on the caller's stack.
pub mod Cells
pub mod Erase
use so2_joan_erik.Common.{for_up, for_below, ℕ, ◌+◌, ◌-◌, ◌==◌, if◌then◌else◌, pos}
use so2_joan_erik.Screen.{Screen, sys_gotoxy, sys_set_color, sys_write_console}
use so2_joan_erik.Game.Loops.{Grid}
use so2_joan_erik.Game.Pixels.{Pixel, negro, marron, blanco, size_x_dragon, size_y_dragon}
use so2_joan_erik.Game.Field.{rows, cols}

-- `gotoxy(x, y); set_color(p.fg, p.bg); buf[0] = p.ch; write(1, buf, 1);`
unfoldable pub paint_at : ℕ → ℕ → Pixel → Screen → Screen
paint_at x y p s =
    let moved = (sys_gotoxy s (pos x) (pos y)).1 in
    let coloured = (sys_set_color moved (pos p.fg) (pos p.bg)).1 in
    (sys_write_console coloured (λ i. p.ch) 1).1

unfoldable pub pinta_pixel : ℕ → ℕ → ℕ → ℕ → Grid Pixel → Screen → Screen
pinta_pixel x0 y0 size_x size_y pix =
    for_up size_y 0 λ i. for_up size_x 0 λ j. paint_at (x0 + j) (y0 + i) (pix i j)

unfoldable pub pinta_dragon_izquierda : Grid Pixel → ℕ → ℕ → Screen → Screen
pinta_dragon_izquierda dragon x0 y0 = for_up size_y_dragon 0 λ i.
    for_up size_x_dragon 0
      λ j. let espejo_j = size_x_dragon - 1 - j in paint_at (x0 + j) (y0 + i) (dragon i espejo_j)

-- How a cell of the map looks.
abbrev pub look : ℕ → Pixel
look c = record { ch = b' '; fg = blanco; bg = if c == b'1' then negro else marron }

unfoldable pub pinta_trozo_mapa : Grid ℕ → ℕ → ℕ → ℕ → ℕ → Screen → Screen
pinta_trozo_mapa mapa x y size_x size_y =
    for_below rows size_y y λ i. for_below cols size_x x λ j. paint_at j i (look (mapa i j))

unfoldable pub pinta_mapa : Grid ℕ → Screen → Screen
pinta_mapa map = for_up rows 0 λ i. for_up cols 0 λ j. paint_at j i (look (map i j))
