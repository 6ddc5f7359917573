-- ===== src/FlatSphere.antt =====
-- Computergrafik/src/szenegraph/sphere.ts: the older `class Sphere`, a disc of vertices at every
-- third degree of a circle. Its colour goes to a location that is never set, which WebGL ignores.
pub mod Circle
use fhmuenster.Base.{ℕ, zero, suc, ◌+◌, List, [], ◌∷◌, leb, if◌then◌else◌}
use fhmuenster.Platform.{Platform, float32_array}
use fhmuenster.WebGl.{
  Gl, ◌▷◌, new_buffer, Call, buffer_data, vertex_attrib_pointer, uniform4_nowhere, draw_arrays,
  array, vertex_position,
}
use fhmuenster.WebGlStart.{get_instance}

pub record FlatSphere (p : Platform) : Type 0 where
  pub radius : p.R
  pub color : List p.R
  pub vertices : List p.R
  pub vertex_position_buffer : ℕ

module _ (p : Platform) where
  open p use {R, of_ℕ, mul, div, sin, cos, pi, nan}

  -- `this.color[i]` as an argument of `uniform4f`, which reads `undefined` as `NaN`.
  abbrev pub color_at : List R → ℕ → R
  color_at [] i = nan
  color_at (x ∷ xs) zero = x
  color_at (x ∷ xs) (suc i) = color_at xs i

  -- `xs[i] = v` on an array, which grows where it is too short; a hole reads as `NaN`.
  unfoldable pub write_at : List R → ℕ → R → List R
  write_at [] zero v = v ∷ []
  write_at [] (suc i) v = nan ∷ write_at [] i v
  write_at (x ∷ xs) zero v = v ∷ xs
  write_at (x ∷ xs) (suc i) v = x ∷ write_at xs i v

  abbrev pub angle_of : ℕ → R
  angle_of i = mul (of_ℕ i) (div pi (of_ℕ 180))

  -- The body of the loop of `calcVertices`.
  unfoldable pub write_vertex : (radius : R) → ℕ → List R → List R
  unfolding write_at
  write_vertex radius i vertices =
      let angle = angle_of i in
      let with_x = write_at vertices i (mul radius (sin angle)) in
      let with_y = write_at with_x (i + 1) (mul radius (cos angle)) in
      write_at with_y (i + 2) (of_ℕ 0)

  -- `for (let i = 0; i <= 360; i += 3)`, with fuel for its rounds.
  unfoldable pub calc_rounds : (radius : R) (fuel i : ℕ) → List R → List R
  unfolding write_vertex
  calc_rounds radius zero i vertices = vertices
  calc_rounds radius (suc fuel) i vertices =
      let rest = calc_rounds radius fuel (i + 3) (write_vertex radius i vertices) in
      if leb i 360 then rest else vertices

  unfoldable pub calc_vertices : (radius : R) → List R → List R
  unfolding calc_rounds
  calc_vertices radius vertices = calc_rounds radius 122 0 vertices

module _ {p : Platform} where
  open p use {R, of_ℕ, div}

  unfoldable pub init_buffers : FlatSphere p → Gl p → FlatSphere p × Gl p
  init_buffers s g = (
    record s { vertex_position_buffer = g.buffers },
    new_buffer g ▷ Call.bind_buffer array g.buffers ▷ buffer_data (float32_array p s.vertices),
  )

  -- The constructor; `setWebGLRenderContext` is its call of `getInstance`.
  unfoldable pub new_flat_sphere : (diameter : R) (color : List R) → Gl p → FlatSphere p × Gl p
  unfolding calc_vertices init_buffers
  new_flat_sphere diameter color g =
      let radius = div diameter (of_ℕ 2) in
      let g0 = get_instance g in
      init_buffers
        (record {
          radius = radius;
          color = color;
          vertices = calc_vertices p radius (of_ℕ 0 ∷ []);
          vertex_position_buffer = g0.buffers;
        })
        g0

  unfoldable pub draw : FlatSphere p → Gl p → Gl p
  draw s g =
      g
      ▷ Call.bind_buffer array s.vertex_position_buffer
      ▷ vertex_attrib_pointer vertex_position 3
      ▷ uniform4_nowhere (record {
        x = color_at p s.color 0;
        y = color_at p s.color 1;
        z = color_at p s.color 2;
        w = color_at p s.color 3;
      })
      ▷ draw_arrays 0 120
