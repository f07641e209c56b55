-- ===== src/Game/Round/Reach.antt =====
-- The games that can be reached stay in bounds.
use so2_joan_erik.Common.{
  ℕ, ◌-◌, ◌<◌, ◌≤◌, ◌≡◌, refl, ◌∙◌, sym, subst, Bool, true, false, ◌&&◌, ◌||◌, not, if◌then◌else◌,
  arith,
}
use so2_joan_erik.Game.Loops.{Grid}
use so2_joan_erik.Game.Field.{rows, cols, posicion_valida}
use so2_joan_erik.Game.Field.Walls.{player_fits, posicion_valida-player}
use so2_joan_erik.Game.Play.{
  CharacterState, st_up, st_down, st_left, st_right, st_stop, Character, Game, max_proyectiles,
  hay_colision_enemigo, hay_colision_diamante,
}
use so2_joan_erik.Game.Play.Bounds.{
  Good, if-Good, tecla-Good, mover_proyectiles-Good, mueve_enemigos-Good,
}
use so2_joan_erik.Game.Round.{
  pinta_diamantes, pinta_enemigo1, pinta_enemigo2, ronda_enemigos, step, mueve_player, borra_player,
  pinta_player, fin, ronda, inicio, Reaches, start, key, round,
}

-- The functions that only paint.
paint-Good : {m : Grid ℕ} {g : Game} → Good m g → Good m (pinta_diamantes g)
unfolding pinta_diamantes
paint-Good v = record {
  map = v.map;
  fits = v.fits;
  ant = v.ant;
  patrol = v.patrol;
  shots = v.shots;
}

pinta_enemigo1-Good : {m : Grid ℕ} {g : Game} → Good m g → Good m (pinta_enemigo1 g)
unfolding pinta_enemigo1
pinta_enemigo1-Good {g} v =
    if-Good g.enemigo1muerto _ _ v
      (record { map = v.map; fits = v.fits; ant = v.ant; patrol = v.patrol; shots = v.shots })

pinta_enemigo2-Good : {m : Grid ℕ} {g : Game} → Good m g → Good m (pinta_enemigo2 g)
unfolding pinta_enemigo2
pinta_enemigo2-Good {g} v =
    if-Good g.enemigo2muerto _ _ v
      (record { map = v.map; fits = v.fits; ant = v.ant; patrol = v.patrol; shots = v.shots })

ronda_enemigos-Good : {m : Grid ℕ} {g : Game} → Good m g → Good m (ronda_enemigos g)
unfolding ronda_enemigos
ronda_enemigos-Good {g} v =
    if-Good (not g.enemigo1muerto || not g.enemigo2muerto) _ _
      (pinta_enemigo2-Good (pinta_enemigo1-Good (mueve_enemigos-Good v))) v

borra_player-Good : {m : Grid ℕ} {g : Game} → Good m g → Good m (borra_player g)
unfolding borra_player
borra_player-Good v = record {
  map = v.map;
  fits = v.fits;
  ant = v.ant;
  patrol = v.patrol;
  shots = v.shots;
}

-- A position that fits has its neighbours on the screen.
step_on_screen :
    (t : CharacterState) (p : Character)
    → player_fits p.x p.y ≡ true
    → ((step t p).x < cols) × ((step t p).y < rows)
step_on_screen st_up p f = ground (arith, f)
step_on_screen st_down p f = ground (arith, f)
step_on_screen st_left p f = ground (arith, f)
step_on_screen st_right p f = ground (arith, f)
step_on_screen st_stop p f = ground (arith, f)

mueve_then_pinta-Good : {m : Grid ℕ} {g : Game} → Good m g → Good m (pinta_player (mueve_player g))
unfolding mueve_player pinta_player
mueve_then_pinta-Good {m} {g} v = at_test (posicion_valida g.mapa p.x p.y 10 8) refl
  where
    p : Character
    p = step g.player.state g.player

    on_screen : (p.x < cols) × (p.y < rows)
    on_screen = step_on_screen g.player.state g.player v.fits

    at_test :
        (b : Bool)
        → posicion_valida g.mapa p.x p.y 10 8 ≡ b
        → Good m (
            pinta_player (
              if b
              then record g { player = p }
              else record g { player = record p { x = g.x_ant_player; y = g.y_ant_player } }))
    at_test true e = record {
      map = v.map;
      fits =
          sym (posicion_valida-player m p.x p.y on_screen.0 on_screen.1)
          ∙ subst (λ (t : Grid ℕ). posicion_valida t p.x p.y 10 8 ≡ true) v.map e;
      ant = (refl, refl);
      patrol = v.patrol;
      shots = v.shots;
    }
    at_test false e = record {
      map = v.map;
      fits = rw (v.ant.0, v.ant.1) v.fits;
      ant = (refl, refl);
      patrol = v.patrol;
      shots = v.shots;
    }

fin-Good : {m : Grid ℕ} {g : Game} → Good m g → Good m (fin g)
unfolding fin
fin-Good {g} v =
    if-Good
      ((hay_colision_enemigo g 1 && not g.enemigo1muerto)
        || (hay_colision_enemigo g 2 && not g.enemigo2muerto))
      _ _ (record { map = v.map; fits = v.fits; ant = v.ant; patrol = v.patrol; shots = v.shots })
      (if-Good (hay_colision_diamante g 5 (rows - 8) || hay_colision_diamante g 70 (rows - 8)) _ _
        (record { map = v.map; fits = v.fits; ant = v.ant; patrol = v.patrol; shots = v.shots }) v)

ronda-Good : {m : Grid ℕ} {g : Game} → Good m g → Good m (ronda g)
unfolding ronda
ronda-Good v = fin-Good (
    mueve_then_pinta-Good
      (borra_player-Good (ronda_enemigos-Good (mover_proyectiles-Good (paint-Good v)))))

inicio-Good :
    (g : Game)
    → ((i : ℕ) → max_proyectiles ≤ i → (g.proyectiles i).activo ≡ false)
    → Good g.mapa (inicio g)
unfolding inicio
inicio-Good g none_beyond = record {
  map = refl;
  fits = refl;
  ant = (refl, refl);
  patrol = record {
    counter = omega arith;
    left1 = λ h. ground (arith, h);
    right1 = λ h. refl;
    left2 = λ h. refl;
    right2 = λ h. ground (arith, h);
    height = (refl, refl);
  };
  shots = λ i h. absurd (ground (arith, none_beyond i, h));
}

-- Every game that can be reached from what main sets up, by keys and rounds in any order, is in
-- bounds: the player lies between the walls, the enemies walk their six columns, and the active
-- projectiles are on the screen. The condition says that the array of projectiles has ten entries.
pub Reaches-Good :
    {g0 g : Game}
    → ((i : ℕ) → max_proyectiles ≤ i → (g0.proyectiles i).activo ≡ false)
    → Reaches g0 g
    → Good g0.mapa g
Reaches-Good {g0} h start = inicio-Good g0 h
Reaches-Good h (key c alive r) = tecla-Good c (Reaches-Good h r)
Reaches-Good h (round alive r) = ronda-Good (Reaches-Good h r)
