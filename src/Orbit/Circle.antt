-- ===== src/Orbit/Circle.antt =====
-- The path of `class Orbit` over the frames.
use fhmuenster.Base.{◌≡◌, refl, ◌∙◌, ap, arith, true, false, List, [], ◌∷◌}
use fhmuenster.Platform.{Platform}
use fhmuenster.Orbit.{Orbit, new_orbit, draw, turn}

-- A translation by the opposite vector undoes one along the first axis.
abbrev pub TranslateCancels : Platform → Type 0
TranslateCancels p =
    (m : p.Mat4) (r : p.R)
    → p.translate (p.translate m (p.vec3 r (p.of_ℕ 0) (p.of_ℕ 0)))
        (p.vec3 (p.neg r) (p.of_ℕ 0) (p.of_ℕ 0))
      ≡ m

module _ (p : Platform) where
  -- The matrix after a frame for each entry of `days`.
  unfoldable pub draws : Orbit p → List p.R → p.Mat4 → p.Mat4
  unfolding draw
  draws o [] trafo = trafo
  draws o (d ∷ days) trafo = draws o days (draw p o d trafo)

  abbrev pub rotate_all : List p.R → p.Mat4 → p.Mat4
  rotate_all [] m = m
  rotate_all (a ∷ as') m = rotate_all as' (p.rotate_y m a)

  abbrev pub turns : p.R → List p.R → List p.R
  turns period [] = []
  turns period (d ∷ days) = turn p d period ∷ turns period days

  draw_step :
      TranslateCancels p
      → (o : Orbit p) (d : p.R) (m : p.Mat4) → p.is_zero o.circulation ≡ false
      → draw p o d (p.translate m (p.vec3 o.radius (p.of_ℕ 0) (p.of_ℕ 0)))
        ≡ p.translate
            (p.rotate_y m (turn p d o.circulation))
            (p.vec3 o.radius (p.of_ℕ 0) (p.of_ℕ 0))
  unfolding draw
  draw_step cancel o d m h = rw h (
      ap
        (λ t.
          p.translate (p.rotate_y t (turn p d o.circulation))
            (p.vec3 o.radius (p.of_ℕ 0) (p.of_ℕ 0)))
        (cancel m o.radius))

  draws_lem :
      TranslateCancels p
      → (o : Orbit p) (days : List p.R) (m : p.Mat4) → p.is_zero o.circulation ≡ false
      → draws o days (p.translate m (p.vec3 o.radius (p.of_ℕ 0) (p.of_ℕ 0)))
        ≡ p.translate
            (rotate_all (turns o.circulation days) m)
            (p.vec3 o.radius (p.of_ℕ 0) (p.of_ℕ 0))
  unfolding draws draw
  draws_lem cancel o [] m h = refl
  draws_lem cancel o (d ∷ days) m h =
      ap (draws o days) (draw_step cancel o d m h)
      ∙ draws_lem cancel o days (p.rotate_y m (turn p d o.circulation)) h

  -- If a translation by the opposite vector undoes one, an orbit with a period other than 0 has
  -- after any frames its tilt, the frames' rotations in their order, and one translation by its
  -- radius.
  pub draws-new_orbit :
      TranslateCancels p
      → (radius tilt period : p.R) (days : List p.R) → p.is_zero period ≡ false
      → let (o, trafo) = new_orbit p radius tilt period in
        draws o days trafo
        ≡ p.translate
            (rotate_all (turns period days) (p.rotate_z p.create o.tilt_rad))
            (p.vec3 radius (p.of_ℕ 0) (p.of_ℕ 0))
  unfolding new_orbit
  draws-new_orbit cancel radius tilt period days h =
      draws_lem cancel (new_orbit p radius tilt period).0 days _ h

  -- An orbit with the period 0 never moves.
  pub draws-zero :
      (o : Orbit p) (days : List p.R) (m : p.Mat4)
      → p.is_zero o.circulation ≡ true
      → draws o days m ≡ m
  unfolding draws draw
  draws-zero o [] m h = refl
  draws-zero o (d ∷ days) m h = ap (draws o days) (still h) ∙ draws-zero o days m h
    where
      still : p.is_zero o.circulation ≡ true → draw p o d m ≡ m
      still h = ground arith
