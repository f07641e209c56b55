-- ===== src/Game/Paint/Cells.antt =====
-- Which cells of the screen the painting functions write.
use so2_joan_erik.Common.{
  for_up, ℕ, zero, suc, ◌+◌, ◌-◌, ◌*◌, ◌<◌, ◌≤◌, ◌≡◌, ◌∙◌, Bool, true, ◌&&◌, ltb, leb, ◌==◌,
  if◌then◌else◌, arith, Bool-cases, inl, inr,
}
use so2_joan_erik.Screen.{Screen, cell_word, sys_write_console, write_loop}
use so2_joan_erik.Screen.Cursor.{cells-printc, sys_gotoxy_on}
use so2_joan_erik.Screen.Colour.{sys_set_color_on}
use so2_joan_erik.Game.Loops.{Grid}
use so2_joan_erik.Game.Pixels.{Pixel, paintable, size_x_dragon, size_y_dragon}
use so2_joan_erik.Game.Field.{rows, cols}
use so2_joan_erik.Game.Paint.{paint_at, pinta_pixel, pinta_dragon_izquierda}

-- The word of the video memory for a pixel.
abbrev pub word : Pixel → ℕ
word p = cell_word p.fg p.bg p.ch

pub paint_at-cells :
    (x y : ℕ) (p : Pixel) (s : Screen) (k : ℕ)
    → x < cols
    → y < rows
    → paintable p ≡ true
    → (paint_at x y p s).cells k ≡ (if k == y * 80 + x then word p else s.cells k)
unfolding paint_at sys_write_console write_loop
paint_at-cells x y p s k hx hy ok =
    rw
      (
        (sys_gotoxy_on s x y hx hy).0,
        sys_set_color_on (record s { x = x; y = y }) p.fg p.bg (ground (arith, ok))
            (ground (arith, ok)),
      )
      (cells-printc (record s { x = x; y = y; foreground = p.fg; background = p.bg }) p.ch k
        (ground (arith, ok)))

row_cells :
    (n j x0 y : ℕ) (p : ℕ → Pixel) (s : Screen) (k : ℕ)
    → x0 + j + n ≤ cols
    → y < rows
    → ((b : ℕ) → j ≤ b → b < j + n → paintable (p b) ≡ true)
    → (for_up n j (λ j. paint_at (x0 + j) y (p j)) s).cells k ≡ (
        if leb (y * 80 + x0 + j) k && ltb k (y * 80 + x0 + j + n)
        then word (p (k - (y * 80 + x0)))
        else s.cells k)
unfolding for_up
row_cells zero j x0 y p s k wide high ok = ground arith
row_cells (suc n) j x0 y p s k wide high ok =
    row_cells n (j + 1) x0 y p _ k (omega arith) high (λ b lo hi. ok b (omega arith) (omega arith))
    ∙ rw (paint_at-cells (x0 + j) y (p j) s k (omega arith) high (ok j (omega arith) (omega arith)))
        (elim (Bool-cases (k == y * 80 + (x0 + j))) [
          | inl e ↦
              let here : k ≡ y * 80 + x0 + j = ground (arith, e) in
              let at : k - (y * 80 + x0) ≡ j = omega (arith, here) in
              rw (e, at) (ground (arith, here))
          | inr e ↦ rw e (ground (arith, e))
        ])

rect_cells :
    (h i x0 y0 w : ℕ) (p : Grid Pixel) (s : Screen) (b a : ℕ)
    → a < cols
    → x0 + w ≤ cols
    → y0 + i + h ≤ rows
    → ((c d : ℕ) → i ≤ c → c < i + h → d < w → paintable (p c d) ≡ true)
    → (for_up h i (λ i. for_up w 0 λ j. paint_at (x0 + j) (y0 + i) (p i j)) s).cells (b * 80 + a)
      ≡ (if (leb (y0 + i) b && ltb b (y0 + i + h)) && (leb x0 a && ltb a (x0 + w))
          then word (p (b - y0) (a - x0))
          else s.cells (b * 80 + a))
unfolding for_up
rect_cells zero i x0 y0 w p s b a ha wide high ok = ground arith
rect_cells (suc h) i x0 y0 w p s b a ha wide high ok =
    rect_cells h (i + 1) x0 y0 w p _ b a ha wide (omega arith)
      (λ c d lo hi. ok c d (omega arith) (omega arith))
    ∙ rw
        (row_cells w 0 x0 (y0 + i) (p i) s (b * 80 + a) (omega arith) (omega arith)
          (λ d lo hi. ok i d (omega arith) (omega arith) (omega arith)))
        (elim (Bool-cases (b == y0 + i)) [
          | inl e ↦
              let here : b ≡ y0 + i = ground (arith, e) in
              let down : b - y0 ≡ i = omega (arith, here) in
              let along : b * 80 + a - ((y0 + i) * 80 + x0) ≡ a - x0 = omega (arith, here) in
              rw (down, along) (ground (arith, here))
          | inr e ↦ ground (arith, e, ha, wide)
        ])

-- The rectangle of `w` columns and `h` rows at `x`, `y`.
abbrev pub in_rect : ℕ → ℕ → ℕ → ℕ → ℕ → ℕ → Bool
in_rect x y w h b a = (leb y b && ltb b (y + h)) && (leb x a && ltb a (x + w))

-- For a rectangle on the screen and pixels that can be painted, pintaPixel shows the sprite in the
-- rectangle and changes no other cell.
pub pinta_pixel-cells :
    (x0 y0 w h : ℕ) (pix : Grid Pixel) (s : Screen) (b a : ℕ)
    → a < cols
    → x0 + w ≤ cols
    → y0 + h ≤ rows
    → ((i j : ℕ) → i < h → j < w → paintable (pix i j) ≡ true)
    → (pinta_pixel x0 y0 w h pix s).cells (b * 80 + a)
      ≡ (if in_rect x0 y0 w h b a then word (pix (b - y0) (a - x0)) else s.cells (b * 80 + a))
unfolding pinta_pixel
pinta_pixel-cells x0 y0 w h pix s b a ha wide high ok =
    rect_cells h 0 x0 y0 w pix s b a ha wide (omega arith) (λ c d lo hi. ok c d (omega arith))
    ∙ ground arith

-- For a rectangle on the screen and a sprite that can be painted, pintaDragonIzquierda shows it
-- mirrored: column `j` of the rectangle has column `9 - j` of the sprite. No other cell changes.
pub pinta_dragon_izquierda-cells :
    (dragon : Grid Pixel) (x0 y0 : ℕ) (s : Screen) (b a : ℕ)
    → a < cols
    → x0 + size_x_dragon ≤ cols
    → y0 + size_y_dragon ≤ rows
    → ((i j : ℕ) → i < size_y_dragon → j < size_x_dragon → paintable (dragon i j) ≡ true)
    → (pinta_dragon_izquierda dragon x0 y0 s).cells (b * 80 + a) ≡ (
        if in_rect x0 y0 size_x_dragon size_y_dragon b a
        then word (dragon (b - y0) (size_x_dragon - 1 - (a - x0)))
        else s.cells (b * 80 + a))
unfolding pinta_dragon_izquierda
pinta_dragon_izquierda-cells dragon x0 y0 s b a ha wide high ok =
    rect_cells size_y_dragon 0 x0 y0 size_x_dragon (λ i j. dragon i (size_x_dragon - 1 - j)) s b a
      ha wide (omega arith)
      (λ c d lo hi. λ e. ok c (size_x_dragon - 1 - d) (omega arith) (omega arith))
    ∙ ground arith
