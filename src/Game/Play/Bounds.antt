-- ===== src/Game/Play/Bounds.antt =====
-- Where the characters and the projectiles are.
use so2_joan_erik.Common.{
  ℕ, zero, suc, ◌+◌, ◌-◌, ◌<◌, ◌≤◌, ◌≡◌, refl, sym, subst, Bool, true, false, ◌&&◌, not, leb, ◌==◌,
  if◌then◌else◌, arith, Bool-cases, inl, inr,
}
use so2_joan_erik.Game.Loops.{Grid}
use so2_joan_erik.Game.Field.{rows, crea_mapa}
use so2_joan_erik.Game.Field.Walls.{crea_mapa-value, player_fits}
use so2_joan_erik.Game.Play.{
  CharacterDirection, left, right, is_left, Character, Proyectil, Game, set_proyectil,
  max_proyectiles, thrown, crea_loop, crea_proyectil, tecla, hits, advance, hit1, hit2, mover_uno,
  mover_ronda, mover_loop, mover_proyectiles, turn, walk, mueve_enemigos,
}

-- The walks of the two enemies: six columns each, there and back, as the counter says.
pub record Patrol (c : ℕ) (e1 e2 : Character) : Type 0 where
  pub counter : c ≤ 5
  pub left1 : is_left e1.dir ≡ true → e1.x + c ≡ 18
  pub right1 : is_left e1.dir ≡ false → e1.x ≡ 13 + c
  pub left2 : is_left e2.dir ≡ true → e2.x + c ≡ 60
  pub right2 : is_left e2.dir ≡ false → e2.x ≡ 55 + c
  pub height : (e1.y ≡ 16) × (e2.y ≡ 16)

-- An active projectile is on the screen, and so are the cells beside it.
abbrev pub OnField : Proyectil → Type 0
OnField p = (1 ≤ p.x) × (p.x ≤ 78) × (1 ≤ p.y) × (p.y < rows)

-- The state of a game on the map of creaMapa. It holds so that nothing is read or painted off the
-- map.
pub record Good (m : Grid ℕ) (g : Game) : Type 0 where
  pub map : g.mapa ≡ crea_mapa m
  pub fits : player_fits g.player.x g.player.y ≡ true
  pub ant : (g.x_ant_player ≡ g.player.x) × (g.y_ant_player ≡ g.player.y)
  pub patrol : Patrol g.contador_enemigos g.enemigo1 g.enemigo2
  pub shots : (i : ℕ) → (g.proyectiles i).activo ≡ true → OnField (g.proyectiles i)

turn_dir : (d : CharacterDirection) → is_left (if is_left d then right else left) ≡ not (is_left d)
turn_dir left = refl
turn_dir right = refl

turn-Patrol : {c : ℕ} {e1 e2 : Character} → 5 ≤ c → Patrol c e1 e2 → Patrol 0 (turn e1) (turn e2)
turn-Patrol {c} {e1} {e2} full p = record {
  counter = omega arith;
  left1 = λ h. ground (arith, turn_dir e1.dir, p.right1, h);
  right1 = λ h. ground (arith, turn_dir e1.dir, p.left1, h);
  left2 = λ h. ground (arith, turn_dir e2.dir, p.right2, h);
  right2 = λ h. ground (arith, turn_dir e2.dir, p.left2, h);
  height = p.height;
}

walk-Patrol :
    {c : ℕ} {e1 e2 : Character} → c < 5 → Patrol c e1 e2 → Patrol (c + 1) (walk e1) (walk e2)
walk-Patrol {c} {e1} {e2} more p = record {
  counter = omega arith;
  left1 = λ h. ground (arith, p.left1 h, h);
  right1 = λ h. ground (arith, p.right1 h, h);
  left2 = λ h. ground (arith, p.left2 h, h);
  right2 = λ h. ground (arith, p.right2 h, h);
  height = p.height;
}

-- An active projectile that has moved off a cell of the field is still active only on a cell that is
-- no wall.
advance-OnField :
    (m : Grid ℕ) (p : Proyectil)
    → OnField p
    → (advance (crea_mapa m) p).activo ≡ true
    → OnField (advance (crea_mapa m) p)
unfolding advance
advance-OnField m p on h = elim (Bool-cases (is_left p.dir)) [
  | inl e ↦ let w = crea_mapa-value m p.y (p.x - 1) in rw e (ground (arith, on, w, h, e))
  | inr e ↦ let w = crea_mapa-value m p.y (p.x + 1) in rw e (ground (arith, on, w, h, e))
]

abbrev Shots : (ℕ → Proyectil) → Type 0
Shots ps = (i : ℕ) → (ps i).activo ≡ true → OnField (ps i)

Shots-set :
    (ps : ℕ → Proyectil) (i : ℕ) (p : Proyectil)
    → Shots ps
    → (p.activo ≡ true → OnField p)
    → Shots (set_proyectil ps i p)
Shots-set ps i p s h j = elim (Bool-cases (j == i)) [ inl e ↦ rw e h | inr e ↦ rw e (s j) ]

thrown-OnField : (p : Character) → player_fits p.x p.y ≡ true → OnField (thrown p)
unfolding thrown
thrown-OnField p f = ground (arith, f)

crea_loop-Good : (n i : ℕ) {m : Grid ℕ} {g : Game} → Good m g → Good m (crea_loop n i g)
unfolding crea_loop
crea_loop-Good zero i v = v
crea_loop-Good (suc n) i {m} {g} v = elim (Bool-cases (g.proyectiles i).activo) [
  | inl e ↦ rw e (crea_loop-Good n (i + 1) v)
  | inr e ↦ rw e (record {
    map = v.map;
    fits = v.fits;
    ant = v.ant;
    patrol = v.patrol;
    shots =
        Shots-set g.proyectiles i (thrown g.player) v.shots (λ h. thrown-OnField g.player v.fits);
  })
]

pub if-Good :
    {m : Grid ℕ} (b : Bool) (g h : Game) → Good m g → Good m h → Good m (if b then g else h)
if-Good true g h v w = v
if-Good false g h v w = w

-- A change of the player that leaves it where it is.
player-Good :
    {m : Grid ℕ} {g : Game} (p : Character)
    → Good m g
    → (p.x ≡ g.player.x) × (p.y ≡ g.player.y)
    → Good m (record g { player = p })
player-Good p v e = record {
  map = v.map;
  fits = rw (e.0, e.1) v.fits;
  ant = rw (e.0, e.1) v.ant;
  patrol = v.patrol;
  shots = v.shots;
}

-- A key keeps the game in bounds.
pub tecla-Good : (c : ℕ) {m : Grid ℕ} {g : Game} → Good m g → Good m (tecla c g)
unfolding tecla crea_proyectil
tecla-Good c {m} {g} v = if-Good (c == b'w') _ _ (player-Good _ v (refl, refl)) (
    if-Good (c == b's') _ _ (player-Good _ v (refl, refl)) (
      if-Good (c == b'a') _ _ (player-Good _ v (refl, refl)) (
        if-Good (c == b'd') _ _ (player-Good _ v (refl, refl)) (
          if-Good (c == b'C') _ _ (crea_loop-Good max_proyectiles 0 v)
            (player-Good _ v (refl, refl))))))

mover_uno-Good :
    (i : ℕ) {m : Grid ℕ} {g : Game}
    → Good m g
    → (g.proyectiles i).activo ≡ true
    → Good m (mover_uno i g)
unfolding mover_uno
mover_uno-Good i {m} {g} v active = record {
  map = v.map;
  fits = v.fits;
  ant = v.ant;
  patrol = v.patrol;
  shots = Shots-set g.proyectiles i (advance g.mapa (g.proyectiles i)) v.shots (
      subst
        (λ (t : Grid ℕ).
          (advance t (g.proyectiles i)).activo ≡ true → OnField (advance t (g.proyectiles i)))
        (sym v.map) (advance-OnField m (g.proyectiles i) (v.shots i active)));
}

hit1-Good : (i : ℕ) {m : Grid ℕ} {g : Game} → Good m g → Good m (hit1 i g)
unfolding hit1
hit1-Good i {m} {g} v =
    elim (Bool-cases
      (hits (g.proyectiles i).x (g.proyectiles i).y g.enemigo1 && not g.enemigo1muerto)) [
        | inr e ↦ rw e v
        | inl e ↦ rw e (record {
          map = v.map;
          fits = v.fits;
          ant = v.ant;
          patrol = v.patrol;
          shots = Shots-set g.proyectiles i _ v.shots (λ h. absurd (ground (arith, h)));
        })
      ]

hit2-Good : (i : ℕ) {m : Grid ℕ} {g : Game} → Good m g → Good m (hit2 i g)
unfolding hit2
hit2-Good i {m} {g} v =
    elim (Bool-cases
      (hits (g.proyectiles i).x (g.proyectiles i).y g.enemigo2 && not g.enemigo2muerto)) [
        | inr e ↦ rw e v
        | inl e ↦ rw e (record {
          map = v.map;
          fits = v.fits;
          ant = v.ant;
          patrol = v.patrol;
          shots = Shots-set g.proyectiles i _ v.shots (λ h. absurd (ground (arith, h)));
        })
      ]

mover_ronda-Good : (i : ℕ) {m : Grid ℕ} {g : Game} → Good m g → Good m (mover_ronda i g)
unfolding mover_ronda
mover_ronda-Good i {m} {g} v = if_active (g.proyectiles i).activo refl
  where
    if_active :
        (b : Bool)
        → (g.proyectiles i).activo ≡ b
        → Good m (if b then hit2 i (hit1 i (mover_uno i g)) else g)
    if_active true e = hit2-Good i (hit1-Good i (mover_uno-Good i v e))
    if_active false e = v

mover_loop-Good : (n i : ℕ) {m : Grid ℕ} {g : Game} → Good m g → Good m (mover_loop n i g)
unfolding mover_loop
mover_loop-Good zero i v = v
mover_loop-Good (suc n) i v = mover_loop-Good n (i + 1) (mover_ronda-Good i v)

pub mover_proyectiles-Good : {m : Grid ℕ} {g : Game} → Good m g → Good m (mover_proyectiles g)
unfolding mover_proyectiles
mover_proyectiles-Good v = mover_loop-Good max_proyectiles 0 v

pub mueve_enemigos-Good : {m : Grid ℕ} {g : Game} → Good m g → Good m (mueve_enemigos g)
unfolding mueve_enemigos
mueve_enemigos-Good {m} {g} v = elim (Bool-cases (leb 5 g.contador_enemigos)) [
  | inl e ↦ rw e (record {
    map = v.map;
    fits = v.fits;
    ant = v.ant;
    patrol = turn-Patrol (ground (arith, e)) v.patrol;
    shots = v.shots;
  })
  | inr e ↦ rw e (record {
    map = v.map;
    fits = v.fits;
    ant = v.ant;
    patrol = walk-Patrol (ground (arith, e)) v.patrol;
    shots = v.shots;
  })
]
