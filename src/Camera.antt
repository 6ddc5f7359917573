-- ===== src/Camera.antt =====
-- Computergrafik/src/szenegraph/camera.ts: `class Camera`, without its node (see SgNode).
pub mod Course
pub mod Keys
pub mod View
use Prim.Native.String.{String}
use text.Mathlib.Text.{◌==◌ as str_eq}
use fhmuenster.Base.{ℕ, Option, none, some, ◌==◌, if◌then◌else◌}
use fhmuenster.Platform.{Platform, Vec3}
use fhmuenster.WebGl.{Gl, ◌▷◌, uniform_matrix4, projection_matrix}
use fhmuenster.WebGlStart.{get_instance}

-- The speeds that the keys set.
pub record Speeds (R : Type 0) : Type 0 where
  pub x : R
  pub y : R
  pub z : R
  pub px : R
  pub pz : R

pub record Camera (p : Platform) : Type 0 where
  pub fov_radian : p.R
  pub projection : Option p.Mat4
  pub camera_position : Vec3 p.R
  pub camera_matrix : p.Mat4
  pub speeds : Speeds p.R

module _ (p : Platform) where
  open p use {R, of_ℕ, decimal, neg}

  abbrev pub at_rest : Speeds R
  at_rest = record { x = of_ℕ 0; y = of_ℕ 0; z = of_ℕ 0; px = of_ℕ 0; pz = of_ℕ 0 }

  -- The constructor.
  unfoldable pub new_camera : Camera p
  new_camera =
      let position = p.vec3 (of_ℕ 0) (of_ℕ 0) (of_ℕ 100) in
      record {
        fov_radian = p.div p.pi (of_ℕ 2);
        projection = none;
        camera_position = position;
        camera_matrix = p.translate p.create position;
        speeds = at_rest;
      }

  -- The first chain of tests of `rotate`.
  unfoldable pub press_arrow : String → Speeds R → Speeds R
  press_arrow code s =
      if str_eq code "ArrowDown"
      then record s { pz = of_ℕ 10 }
      else if str_eq code "ArrowUp"
      then record s { pz = neg (of_ℕ 10) }
      else if str_eq code "ArrowLeft"
      then record s { px = neg (of_ℕ 10) }
      else if str_eq code "ArrowRight"
      then record s { px = of_ℕ 10 }
      else s

  -- The second chain.
  unfoldable pub press_letter : String → Speeds R → Speeds R
  press_letter code s =
      if str_eq code "w"
      then record s { x = neg (decimal 5 2) }
      else if str_eq code "a"
      then record s { y = decimal 5 2 }
      else if str_eq code "s"
      then record s { x = decimal 5 2 }
      else if str_eq code "d"
      then record s { y = neg (decimal 5 2) }
      else if str_eq code "q"
      then record s { z = decimal 5 2 }
      else if str_eq code "e"
      then record s { z = neg (decimal 5 2) }
      else s

  unfoldable pub rotate_speeds : String → ℕ → Speeds R → Speeds R
  unfolding press_arrow press_letter
  rotate_speeds code status s =
      if status == 1 then press_letter code (press_arrow code s) else at_rest

module _ {p : Platform} where
  open p use {R, of_ℕ, translate, rotate_x, rotate_y, rotate_z}

  abbrev pub get_camera_matrix : Camera p → p.Mat4
  get_camera_matrix c = c.camera_matrix

  abbrev pub set_camera_matrix : p.Mat4 → Camera p → Camera p
  set_camera_matrix matrix c = record c { camera_matrix = matrix }

  unfoldable pub rotate : String → ℕ → Camera p → Camera p
  unfolding rotate_speeds
  rotate code status c = record c { speeds = rotate_speeds p code status c.speeds }

  -- The listeners of `initListeners`.
  unfoldable pub key_down : String → Camera p → Camera p
  unfolding rotate
  key_down key = rotate key 1

  unfoldable pub key_up : String → Camera p → Camera p
  unfolding rotate
  key_up key = rotate key 0

  -- The camera matrix after the translation and the three rotations of `draw`.
  unfoldable pub moved : Camera p → p.Mat4
  moved c =
      let s = c.speeds in
      let shifted = translate c.camera_matrix (p.vec3 s.px (of_ℕ 0) s.pz) in
      rotate_z (rotate_y (rotate_x shifted s.x) s.y) s.z

  abbrev pub with_view :
      p.Mat4 → p.Mat4 → Camera p → Gl p → Option p.Mat4 → Option (Camera p × Gl p)
  with_view lens matrix c g none = none
  with_view lens matrix c g (some view) =
      let projection = p.multiply lens view in
      some (
        record c { projection = some projection; camera_matrix = matrix },
        g ▷ uniform_matrix4 projection_matrix projection,
      )

  -- `none` is the TypeError of `mat4.mul` at the `null` that `mat4.invert` returns.
  unfoldable pub draw : Camera p → Gl p → Option (Camera p × Gl p)
  unfolding moved
  draw c g =
      let g0 = get_instance g in
      let lens =
        p.perspective (p.rem c.fov_radian p.pi) (p.div g0.width g0.height) (of_ℕ 1) (of_ℕ 1000) in
      with_view lens (moved c) c g0 (p.invert (moved c))
