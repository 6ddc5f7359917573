-- ===== src/Triangle.antt =====
-- Computergrafik/src/triangle/triangle.ts: `class Triangle`.
use fhmuenster.Base.{ℕ, List, [], ◌∷◌}
use fhmuenster.Platform.{Platform, Vec3, float32_array}
use fhmuenster.WebGl.{
  Gl, ◌▷◌, new_buffer, Call, buffer_data, vertex_attrib_pointer, draw_arrays, array,
  vertex_position, normal_position,
}
use fhmuenster.WebGlStart.{get_instance}

pub record Triangle (p : Platform) : Type 0 where
  pub vertices : List p.R
  pub normal : List p.R
  pub vertex_position_buffer : ℕ
  pub normal_position_buffer : ℕ

abbrev pub coordinates : {R : Type 0} → Vec3 R → List R → List R
coordinates v rest = v.x ∷ v.y ∷ v.z ∷ rest

module _ {p : Platform} where
  unfoldable pub init_buffers : (vertices normal : List p.R) → Gl p → Triangle p × Gl p
  init_buffers vertices normal g =
      let created = new_buffer (new_buffer g) in
      let t : Triangle p = record {
        vertices = vertices;
        normal = normal;
        vertex_position_buffer = g.buffers;
        normal_position_buffer = (new_buffer g).buffers;
      } in
      (
        t,
        created
            ▷ Call.bind_buffer array t.vertex_position_buffer
            ▷ buffer_data (float32_array p vertices)
            ▷ Call.bind_buffer array t.normal_position_buffer
            ▷ buffer_data (float32_array p normal),
      )

  -- The constructor; `setWebGLRenderContext` is its call of `getInstance`.
  unfoldable pub new_triangle : (v1 v2 v3 : Vec3 p.R) → Gl p → Triangle p × Gl p
  unfolding init_buffers
  new_triangle v1 v2 v3 g =
      let diff1 = p.subtract3 v2 v1 in
      let diff2 = p.subtract3 v3 v1 in
      let face_normal = p.cross3 diff1 diff2 in
      init_buffers (coordinates v1 (coordinates v2 (coordinates v3 [])))
        (coordinates face_normal (coordinates face_normal (coordinates face_normal [])))
        (get_instance g)

  unfoldable pub draw : Triangle p → ℕ → Gl p → Gl p
  draw t count g =
      g
      ▷ Call.bind_buffer array t.vertex_position_buffer
      ▷ vertex_attrib_pointer vertex_position 3
      ▷ Call.bind_buffer array t.normal_position_buffer
      ▷ vertex_attrib_pointer normal_position 3
      ▷ draw_arrays 0 count
