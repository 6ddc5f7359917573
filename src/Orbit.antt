-- ===== src/Orbit.antt =====
-- Computergrafik/src/szenegraph/orbit.ts: `class Orbit`, whose matrix turns about the centre of
-- the node above it.
pub mod Circle
use fhmuenster.Base.{if◌then◌else◌}
use fhmuenster.Platform.{Platform}

pub record Orbit (p : Platform) : Type 0 where
  pub radius : p.R
  pub tilt_rad : p.R
  pub circulation : p.R

module _ (p : Platform) where
  open p use {R, Mat4, of_ℕ, mul, div, neg, pi, vec3, create, translate, rotate_y, rotate_z}

  -- The constructor, and the matrix `trafo` that it sets.
  unfoldable pub new_orbit : (radius tilt circulation_period : R) → Orbit p × Mat4
  new_orbit radius tilt circulation_period =
      let tilt_rad = mul tilt (div pi (of_ℕ 180)) in
      (
        record { radius = radius; tilt_rad = tilt_rad; circulation = circulation_period },
        translate (rotate_z create tilt_rad) (vec3 radius (of_ℕ 0) (of_ℕ 0)),
      )

  -- `part * 2 * Math.PI` for `part = days / circulation`.
  abbrev pub turn : (days period : R) → R
  turn days period = mul (mul (div days period) (of_ℕ 2)) pi

  unfoldable pub draw : Orbit p → R → Mat4 → Mat4
  draw o days trafo =
      if p.is_zero o.circulation
      then trafo
      else (let centred = translate trafo (vec3 (neg o.radius) (of_ℕ 0) (of_ℕ 0)) in
          translate (rotate_y centred (turn days o.circulation)) (vec3 o.radius (of_ℕ 0) (of_ℕ 0)))
