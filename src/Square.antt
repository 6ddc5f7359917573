-- ===== src/Square.antt =====
-- Computergrafik/src/forms/square.ts: `class Square`, two triangles with texture coordinates that
-- are stored anew for each draw.
pub mod Draw
pub mod Supply
use fhmuenster.Base.{ℕ, List, [], ◌∷◌}
use fhmuenster.Platform.{Platform, Vec3, float32_array}
use fhmuenster.WebGl.{
  Gl, ◌▷◌, new_buffer, Call, buffer_data, vertex_attrib_pointer, array, tex_coord,
}
use fhmuenster.WebGlStart.{get_instance}
use fhmuenster.Triangle
use fhmuenster.Triangle.{Triangle, new_triangle}

-- `triangles[0]` and `triangles[1]` are the two elements that the constructor pushes.
pub record Square (p : Platform) : Type 0 where
  pub text_position_data : List p.R
  pub texture_position_buffer : ℕ
  pub triangle0 : Triangle p
  pub triangle1 : Triangle p

-- The texture coordinates that `draw` stores for either triangle.
abbrev pub lower_left : (p : Platform) → List p.R
lower_left p = p.of_ℕ 0 ∷ p.of_ℕ 0 ∷ p.of_ℕ 0 ∷ p.of_ℕ 1 ∷ p.of_ℕ 1 ∷ p.of_ℕ 1 ∷ []

abbrev pub upper_right : (p : Platform) → List p.R
upper_right p = p.of_ℕ 1 ∷ p.of_ℕ 1 ∷ p.of_ℕ 1 ∷ p.of_ℕ 0 ∷ p.of_ℕ 0 ∷ p.of_ℕ 0 ∷ []

module _ {p : Platform} where
  -- `initBuffer`: a new buffer each time.
  unfoldable pub init_buffer : Square p → Gl p → Square p × Gl p
  init_buffer s g =
      let g0 = get_instance g in
      (
        record s { texture_position_buffer = g0.buffers },
        new_buffer g0
            ▷ Call.bind_buffer array g0.buffers
            ▷ buffer_data (float32_array p s.text_position_data),
      )

  unfoldable pub bind_buffer : Square p → Gl p → Gl p
  bind_buffer s g =
      get_instance g
      ▷ Call.bind_buffer array s.texture_position_buffer
      ▷ vertex_attrib_pointer tex_coord 2

  -- The constructor.
  unfoldable pub new_square : (v1 v2 v3 v4 : Vec3 p.R) → Gl p → Square p × Gl p
  unfolding init_buffer new_triangle
  new_square v1 v2 v3 v4 g =
      let (t0, g1) = new_triangle v1 v2 v3 g in
      let (t1, g2) = new_triangle v3 v4 v1 g1 in
      init_buffer
        (record {
          text_position_data = [];
          texture_position_buffer = g2.buffers;
          triangle0 = t0;
          triangle1 = t1;
        })
        g2

  -- One half of `draw`: new texture coordinates, then one of the triangles.
  unfoldable pub draw_half : List p.R → Triangle p → Square p → Gl p → Square p × Gl p
  unfolding init_buffer bind_buffer Triangle.draw
  draw_half tex t s g =
      let (s', g') = init_buffer (record s { text_position_data = tex }) g in
      (s', Triangle.draw t 3 (bind_buffer s' g'))

  unfoldable pub draw : Square p → Gl p → Square p × Gl p
  unfolding draw_half
  draw s g =
      let (s', g') = draw_half (lower_left p) s.triangle0 s g in
      draw_half (upper_right p) s'.triangle1 s' g'
