-- ===== src/Main/Setup/Courses.antt =====
-- The ten bodies of Computergrafik/src/szenegraph/index.ts, and where the frames put them: the
-- matrices of the orbits and planets after the days of the earlier frames.
use mathlib.Core.List.{foldl}
use fhmuenster.Base.{List, [], ◌∷◌, ◌++◌, map}
use fhmuenster.Platform.{Platform}
use fhmuenster.Orbit
use fhmuenster.Orbit.{Orbit, new_orbit}
use fhmuenster.Planet
use fhmuenster.Planet.{Planet, new_planet}

-- A planet and its orbit, each with the matrix that its constructor sets.
pub record Course (p : Platform) : Type 0 where
  pub planet : Planet p × p.Mat4
  pub orbit : Orbit p × p.Mat4

module _ {p : Platform} where
  -- After the frames that drew for `days`, the latest first.
  abbrev pub orbit_at : Orbit p × p.Mat4 → (days : List p.R) → p.Mat4
  orbit_at o [] = o.1
  orbit_at o (d ∷ ds) = Orbit.draw p o.0 d (orbit_at o ds)

  abbrev pub planet_at : Planet p × p.Mat4 → (days : List p.R) → p.Mat4
  planet_at o [] = o.1
  planet_at o (d ∷ ds) = Planet.draw p o.0 d (planet_at o ds)

  -- The product along the path to a body's mesh: the stack's matrix, the camera's, those of the
  -- orbits, the planet's and the mesh's.
  abbrev pub place_of : (above : List (Course p)) → Course p → (days : List p.R) → p.Mat4
  place_of above c ds = foldl p.multiply p.create (
      p.create
      ∷ (map (λ (o : Course p). orbit_at o.orbit ds) above
          ++ (orbit_at c.orbit ds ∷ planet_at c.planet ds ∷ p.create ∷ [])))

module _ (p : Platform) where
  open p use {R, of_ℕ, decimal}

  abbrev course : (tilt rotation_period radius orbit_tilt period : R) → Course p
  course tilt rotation_period radius orbit_tilt period = record {
    planet = new_planet p tilt rotation_period;
    orbit = new_orbit p radius orbit_tilt period;
  }

  abbrev pub sun : Course p
  sun = course (decimal 725 2) (decimal 2538 2) (of_ℕ 0) (of_ℕ 0) (of_ℕ 0)

  abbrev pub earth : Course p
  earth = course (decimal 2345 2) (of_ℕ 1) (of_ℕ 80) (of_ℕ 0) (of_ℕ 365)

  abbrev pub mars : Course p
  mars = course (decimal 2519 2) (decimal 103 2) (of_ℕ 105) (of_ℕ 19) (of_ℕ 678)

  abbrev pub moon : Course p
  moon = course (decimal 154 2) (decimal 2732 2) (of_ℕ 6) (decimal 5145 3) (decimal 2732 2)

  abbrev pub neptune : Course p
  neptune = course (decimal 2958 2) (decimal 80 2) (of_ℕ 450) (decimal 177 2) (of_ℕ 60_152)

  abbrev pub uranus : Course p
  uranus = course (decimal 9786 2) (decimal 75 2) (of_ℕ 280) (decimal 77 2) (of_ℕ 30_664)

  abbrev pub saturn : Course p
  saturn = course (decimal 2673 2) (decimal 43 2) (of_ℕ 210) (decimal 248 2) (of_ℕ 10_753)

  abbrev pub jupiter : Course p
  jupiter = course (decimal 312 2) (decimal 41 2) (of_ℕ 130) (decimal 104 2) (of_ℕ 4329)

  abbrev pub venus : Course p
  venus = course (decimal 17_736 2) (of_ℕ 243) (of_ℕ 60) (decimal 340 2) (of_ℕ 226)

  abbrev pub mercury : Course p
  mercury = course (of_ℕ 0) (decimal 5865 2) (of_ℕ 40) (decimal 700 2) (of_ℕ 88)
