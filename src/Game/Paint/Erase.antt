-- ===== src/Game/Paint/Erase.antt =====
-- Painting the map over a sprite takes the sprite away.
use so2_joan_erik.Common.{
  for_up, for_below, for_below-up, ℕ, zero, suc, ◌+◌, ◌-◌, ◌*◌, ◌<◌, ◌≤◌, ◌≡◌, refl, ◌∙◌, ap, sym,
  fun_ext, Bool, true, false, ◌&&◌, ltb, leb, ◌==◌, if◌then◌else◌, arith, Bool-cases, inl, inr,
}
use so2_joan_erik.Screen.{Screen}
use so2_joan_erik.Game.Loops.{Grid}
use so2_joan_erik.Game.Pixels.{Pixel, paintable}
use so2_joan_erik.Game.Field.{rows, cols}
use so2_joan_erik.Game.Paint.{paint_at, pinta_pixel, look, pinta_trozo_mapa, pinta_mapa}
use so2_joan_erik.Game.Paint.Cells.{word, paint_at-cells, in_rect, pinta_pixel-cells}

look-paintable : (c : ℕ) → paintable (look c) ≡ true
look-paintable c = elim (Bool-cases (c == b'1')) [ inl e ↦ rw e refl | inr e ↦ rw e refl ]

row_below :
    (n j y : ℕ) (p : ℕ → ℕ) (s : Screen) (k : ℕ)
    → j + n ≤ cols
    → y < rows
    → (for_below cols n j (λ j. paint_at j y (look (p j))) s).cells k ≡ (
        if leb (y * 80 + j) k && ltb k (y * 80 + j + n)
        then word (look (p (k - y * 80)))
        else s.cells k)
unfolding for_below
row_below zero j y p s k wide high = ground arith
row_below (suc n) j y p s k wide high =
    let lim : ltb j cols ≡ true = ground arith in
    rw lim (
      row_below n (j + 1) y p _ k (omega arith) high
      ∙ rw (paint_at-cells j y (look (p j)) s k (omega arith) high (look-paintable (p j)))
          (elim (Bool-cases (k == y * 80 + j)) [
            | inl e ↦
                let here : k ≡ y * 80 + j = ground (arith, e) in
                let at : k - y * 80 ≡ j = omega (arith, here) in rw (e, at) (ground (arith, here))
            | inr e ↦ rw e (ground (arith, e))
          ]))

rows_below :
    (h y x w : ℕ) (m : Grid ℕ) (s : Screen) (b a : ℕ)
    → a < cols
    → x + w ≤ cols
    → y + h ≤ rows
    → (for_below rows h y (λ i. for_below cols w x λ j. paint_at j i (look (m i j))) s).cells
        (b * 80 + a)
      ≡ (if in_rect x y w h b a then word (look (m b a)) else s.cells (b * 80 + a))
unfolding for_below
rows_below zero y x w m s b a ha wide high = ground arith
rows_below (suc h) y x w m s b a ha wide high =
    let lim : ltb y rows ≡ true = ground arith in
    rw lim (
      rows_below h (y + 1) x w m _ b a ha wide (omega arith)
      ∙ rw (row_below w x y (m y) s (b * 80 + a) wide (omega arith)) (elim (Bool-cases (b == y)) [
        | inl e ↦
            let here : b ≡ y = ground (arith, e) in
            let along : b * 80 + a - y * 80 ≡ a = omega (arith, here) in
            rw along (ground (arith, here))
        | inr e ↦ ground (arith, e, ha, wide)
      ]))

-- pintaTrozoMapa shows the map in a rectangle on the screen and changes no other cell.
pub pinta_trozo_mapa-cells :
    (mapa : Grid ℕ) (x y w h : ℕ) (s : Screen) (b a : ℕ)
    → a < cols
    → x + w ≤ cols
    → y + h ≤ rows
    → (pinta_trozo_mapa mapa x y w h s).cells (b * 80 + a)
      ≡ (if in_rect x y w h b a then word (look (mapa b a)) else s.cells (b * 80 + a))
unfolding pinta_trozo_mapa
pinta_trozo_mapa-cells mapa x y w h s b a ha wide high = rows_below h y x w mapa s b a ha wide high

-- The screen shows the map.
pub record Shows (mapa : Grid ℕ) (s : Screen) : Type 0 where
  pub shown : (b a : ℕ) → b < rows → a < cols → s.cells (b * 80 + a) ≡ word (look (mapa b a))

as_below :
    (map : Grid ℕ) (s : Screen)
    → for_below rows rows 0 (λ i. for_below cols cols 0 λ j. paint_at j i (look (map i j))) s
      ≡ for_up rows 0 (λ i. for_up cols 0 λ j. paint_at j i (look (map i j))) s
as_below map s =
    for_below-up rows rows 0 _ s (omega arith)
    ∙ ap (λ (row : ℕ → Screen → Screen). for_up rows 0 row s)
        (fun_ext λ i. fun_ext λ t. for_below-up cols cols 0 _ t (omega arith))

-- pintaMapa shows the whole map, whatever the screen showed.
pub pinta_mapa-Shows : (map : Grid ℕ) (s : Screen) → Shows map (pinta_mapa map s)
unfolding pinta_mapa
pinta_mapa-Shows map s = record {
  shown = λ b a hb ha.
      ap (λ (t : Screen). t.cells (b * 80 + a)) (sym (as_below map s))
      ∙ rows_below rows 0 0 cols map s b a ha (omega arith) (omega arith)
      ∙ ground (arith, hb, ha);
}

-- On a screen that shows the map, painting a sprite in a rectangle on the screen and then the map
-- over the same rectangle shows the map again.
pub pinta_trozo_mapa-erases :
    (mapa : Grid ℕ) (x y w h : ℕ) (pix : Grid Pixel) (s : Screen)
    → x + w ≤ cols
    → y + h ≤ rows
    → ((i j : ℕ) → i < h → j < w → paintable (pix i j) ≡ true)
    → Shows mapa s
    → Shows mapa (pinta_trozo_mapa mapa x y w h (pinta_pixel x y w h pix s))
pinta_trozo_mapa-erases mapa x y w h pix s wide high ok m = record {
  shown = λ b a hb ha.
      pinta_trozo_mapa-cells mapa x y w h _ b a ha wide high
      ∙ rw (pinta_pixel-cells x y w h pix s b a ha wide high ok, m.shown b a hb ha)
          (twice (in_rect x y w h b a) _ _);
}
  where
    twice : (t : Bool) (u v : ℕ) → (if t then u else (if t then v else u)) ≡ u
    twice true u v = refl
    twice false u v = refl
