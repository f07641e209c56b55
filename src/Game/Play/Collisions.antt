-- ===== src/Game/Play/Collisions.antt =====
-- What the collision tests tell, and what a throw and a hit do.
use so2_joan_erik.Common.{ℕ, ◌≤◌, ◌≡◌, ◌↔◌, true, false, leb, if◌then◌else◌, arith}
use so2_joan_erik.Game.Play.{Character, Game, overlap, hay_colision_enemigo, hay_colision_diamante}
use so2_joan_erik.Game.Paint.Cells.{in_rect}

-- No cell lies in the player's rectangle and in the other one.
abbrev pub Apart : Character → ℕ → ℕ → ℕ → ℕ → Type 0
Apart p x y w h = (b a : ℕ) → in_rect p.x p.y 10 8 b a ≡ true → in_rect x y w h b a ≡ false

abbrev max2 : ℕ → ℕ → ℕ
max2 a b = if leb a b then b else a

overlap-Apart :
    (p : Character) (x y w h : ℕ) → 1 ≤ w → 1 ≤ h → (overlap p x y w h ≡ false) ↔ Apart p x y w h
overlap-Apart p x y w h pw ph =
    (λ o b a i. ground (arith, o, i), λ apart. ground (arith, apart (max2 p.y y) (max2 p.x x)))

-- hayColisionEnemigo and hayColisionDiamante return 0 exactly if the player's rectangle shares no
-- cell with that of the enemy or of the diamond.
pub hay_colision-Apart :
    (g : Game)
    → ((hay_colision_enemigo g 1 ≡ false) ↔ Apart g.player g.enemigo1.x g.enemigo1.y 7 7)
      × ((hay_colision_enemigo g 2 ≡ false) ↔ Apart g.player g.enemigo2.x g.enemigo2.y 7 7)
      × ((x y : ℕ) → (hay_colision_diamante g x y ≡ false) ↔ Apart g.player x y 5 4)
unfolding hay_colision_enemigo hay_colision_diamante
hay_colision-Apart g = (
  overlap-Apart g.player g.enemigo1.x g.enemigo1.y 7 7 (omega arith) (omega arith),
  overlap-Apart g.player g.enemigo2.x g.enemigo2.y 7 7 (omega arith) (omega arith),
  λ x y. overlap-Apart g.player x y 5 4 (omega arith) (omega arith),
)
