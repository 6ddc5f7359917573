-- ===== src/Planet/Spin.antt =====
-- The rotation of `class Planet` over the frames.
use fhmuenster.Base.{◌≡◌, refl, ◌∙◌, ap, sym, List, [], ◌∷◌}
use fhmuenster.Platform.{Platform}
use fhmuenster.Orbit.{turn}
use fhmuenster.Planet.{Planet, new_planet, draw}

-- Sums are divided and multiplied term by term, and two rotations about one axis are one by the sum.
pub record Turns (p : Platform) : Type 0 where
  pub add_div : (a b c : p.R) → p.div (p.add a b) c ≡ p.add (p.div a c) (p.div b c)
  pub add_mul : (a b c : p.R) → p.mul (p.add a b) c ≡ p.add (p.mul a c) (p.mul b c)
  pub rotate_add :
      (m : p.Mat4) (a b : p.R) → p.rotate_y (p.rotate_y m a) b ≡ p.rotate_y m (p.add a b)

module _ (p : Platform) where
  -- The matrix after a frame for each entry of `days`.
  unfoldable pub spins : Planet p → List p.R → p.Mat4 → p.Mat4
  unfolding draw
  spins o [] trafo = trafo
  spins o (d ∷ days) trafo = spins o days (draw p o d trafo)

  abbrev pub total : p.R → List p.R → p.R
  total d [] = d
  total d (e ∷ days) = total (p.add d e) days

  turn-add :
      Turns p
      → (a b period : p.R) → turn p (p.add a b) period ≡ p.add (turn p a period) (turn p b period)
  turn-add laws a b period =
      ap (λ t. p.mul (p.mul t (p.of_ℕ 2)) p.pi) (laws.add_div a b period)
      ∙ ap (λ t. p.mul t p.pi) (laws.add_mul _ _ (p.of_ℕ 2))
      ∙ laws.add_mul _ _ p.pi

  spins_lem :
      Turns p
      → (o : Planet p) (d : p.R) (days : List p.R) (m : p.Mat4)
      → spins o days (p.rotate_y m (turn p d o.rotation_period))
        ≡ p.rotate_y m (turn p (total d days) o.rotation_period)
  unfolding spins draw
  spins_lem laws o d [] m = refl
  spins_lem laws o d (e ∷ days) m =
      ap (spins o days) (
        laws.rotate_add m (turn p d o.rotation_period) (turn p e o.rotation_period)
        ∙ ap (p.rotate_y m) (sym (turn-add laws d e o.rotation_period)))
      ∙ spins_lem laws o (p.add d e) days m

  -- Where sums are divided and multiplied term by term and two rotations about one axis are one by
  -- the sum of their angles, a planet has after one frame or more its tilt and one rotation about its
  -- axis: the angle is that of all the days of the frames together, as if there had been one frame.
  pub spins-new_planet :
      Turns p
      → (tilt period d : p.R) (days : List p.R)
      → let (o, trafo) = new_planet p tilt period in
        spins o (d ∷ days) trafo
        ≡ p.rotate_y (p.rotate_z p.create o.tilt_rad) (turn p (total d days) period)
  unfolding new_planet spins draw
  spins-new_planet laws tilt period d days = spins_lem laws (new_planet p tilt period).0 d days _
