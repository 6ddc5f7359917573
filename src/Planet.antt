-- ===== src/Planet.antt =====
-- Computergrafik/src/szenegraph/planet.ts: `class Planet`, without its children (see SgNode).
pub mod Spin
use fhmuenster.Platform.{Platform}
use fhmuenster.Orbit.{turn}

pub record Planet (p : Platform) : Type 0 where
  pub tilt_rad : p.R
  pub rotation_period : p.R

module _ (p : Platform) where
  open p use {R, Mat4, of_ℕ, mul, div, pi, create, rotate_y, rotate_z}

  unfoldable pub new_planet : (tilt rotation_period : R) → Planet p × Mat4
  new_planet tilt rotation_period =
      let tilt_rad = div (mul tilt pi) (of_ℕ 180) in
      (record { tilt_rad = tilt_rad; rotation_period = rotation_period }, rotate_z create tilt_rad)

  unfoldable pub draw : Planet p → R → Mat4 → Mat4
  draw o days trafo = rotate_y trafo (turn p days o.rotation_period)
