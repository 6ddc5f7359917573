-- ===== src/CubeNode.antt =====
-- Computergrafik/src/szenegraph/cubeNode.ts: `class CubeNode`, six squares.
pub mod Draw
pub mod Supply
pub mod Normals
use fhmuenster.Base.{ℕ, List, [], ◌∷◌, ◌++◌}
use fhmuenster.Platform.{Platform, Vec3, float32_array}
use fhmuenster.WebGl.{
  Gl, ◌▷◌, new_buffer, Call, buffer_data, vertex_attrib_pointer, array, tex_coord,
}
use fhmuenster.WebGlStart.{get_instance}
use fhmuenster.Square
use fhmuenster.Square.{Square, new_square}

pub record CubeNode (p : Platform) : Type 0 where
  pub squares : List (Square p)
  pub tex_coord_buffer : ℕ
  pub tex_data : List p.R

-- The eight corners, `v1` to `v8`.
pub record Corners (R : Type 0) : Type 0 where
  pub v1 : Vec3 R
  pub v2 : Vec3 R
  pub v3 : Vec3 R
  pub v4 : Vec3 R
  pub v5 : Vec3 R
  pub v6 : Vec3 R
  pub v7 : Vec3 R
  pub v8 : Vec3 R

abbrev pub Face : Type 0 → Type 0
Face R = record { a : Vec3 R; b : Vec3 R; c : Vec3 R; d : Vec3 R }

unfoldable pub corners : (p : Platform) (heigth width depth : p.R) → Corners p.R
corners p heigth width depth =
    let h = p.div heigth (p.of_ℕ 2) in
    let nh = p.div (p.neg heigth) (p.of_ℕ 2) in
    let w = p.div width (p.of_ℕ 2) in
    let nw = p.div (p.neg width) (p.of_ℕ 2) in
    let d = p.div depth (p.of_ℕ 2) in
    let nd = p.div (p.neg depth) (p.of_ℕ 2) in
    record {
      v1 = p.vec3 h w nd;
      v2 = p.vec3 h nw nd;
      v3 = p.vec3 nh nw nd;
      v4 = p.vec3 nh w nd;
      v5 = p.vec3 h w d;
      v6 = p.vec3 h nw d;
      v7 = p.vec3 nh nw d;
      v8 = p.vec3 nh w d;
    }

-- The arguments of the six `new Square`.
unfoldable pub faces : {R : Type 0} → Corners R → List (Face R)
faces k =
    record { a = k.v1; b = k.v2; c = k.v3; d = k.v4 }
    ∷ record { a = k.v6; b = k.v5; c = k.v8; d = k.v7 }
    ∷ record { a = k.v5; b = k.v6; c = k.v2; d = k.v1 }
    ∷ record { a = k.v5; b = k.v1; c = k.v4; d = k.v8 }
    ∷ record { a = k.v2; b = k.v6; c = k.v7; d = k.v3 }
    ∷ record { a = k.v4; b = k.v3; c = k.v7; d = k.v8 }
    ∷ []

module _ {p : Platform} where
  open p use {R, of_ℕ}

  unfoldable pub new_squares : List (Face R) → Gl p → List (Square p) × Gl p
  new_squares [] g = ([], g)
  new_squares (f ∷ fs) g =
      let (s, g1) = new_square f.a f.b f.c f.d g in let (ss, g2) = new_squares fs g1 in (s ∷ ss, g2)

  -- `squares.forEach` of the constructor: eight numbers for each square.
  unfoldable pub push_tex : List (Square p) → List R → List R
  push_tex [] data' = data'
  push_tex (_ ∷ ss) data' =
      push_tex ss
        (data' ++ (of_ℕ 1 ∷ of_ℕ 1 ∷ of_ℕ 0 ∷ of_ℕ 1 ∷ of_ℕ 0 ∷ of_ℕ 0 ∷ of_ℕ 1 ∷ of_ℕ 0 ∷ []))

  unfoldable pub init_tex : List (Square p) → List R → Gl p → CubeNode p × Gl p
  init_tex squares tex_data g = (
    record { squares = squares; tex_coord_buffer = g.buffers; tex_data = tex_data },
    new_buffer g ▷ Call.bind_buffer array g.buffers ▷ buffer_data (float32_array p tex_data),
  )

  -- The constructor.
  unfoldable pub new_cube_node : (heigth width depth : R) → Gl p → CubeNode p × Gl p
  unfolding corners faces new_squares push_tex init_tex
  new_cube_node heigth width depth g =
      let (squares, g1) = new_squares (faces (corners p heigth width depth)) (get_instance g) in
      init_tex squares (push_tex squares []) g1

  unfoldable pub bind_tex : CubeNode p → Gl p → Gl p
  bind_tex c g =
      get_instance g ▷ Call.bind_buffer array c.tex_coord_buffer ▷ vertex_attrib_pointer tex_coord 2

  unfoldable pub draw_squares : List (Square p) → Gl p → List (Square p) × Gl p
  unfolding Square.draw
  draw_squares [] g = ([], g)
  draw_squares (s ∷ ss) g =
      let (s', g1) = Square.draw s g in let (ss', g2) = draw_squares ss g1 in (s' ∷ ss', g2)

  unfoldable pub draw : CubeNode p → Gl p → CubeNode p × Gl p
  unfolding bind_tex draw_squares
  draw c g =
      let (squares, g') = draw_squares c.squares (bind_tex c g) in
      (record c { squares = squares }, g')
