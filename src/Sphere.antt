-- ===== src/Sphere.antt =====
-- Computergrafik/src/szenegraph/sphereNode.ts: `class Sphere`, a mesh of latitude and longitude
-- bands that is drawn as one triangle strip.
pub mod Strip
pub mod Vertices
pub mod Draw
pub mod Supply
use fhmuenster.Base.{ℕ, zero, suc, ◌+◌, ◌*◌, List, [], ◌∷◌, ◌++◌, length}
use fhmuenster.Platform.{Platform, uint16_array, float32_array}
use fhmuenster.WebGl.{
  Gl, ◌▷◌, new_buffer, Call, buffer_data, element_data, vertex_attrib_pointer, draw_elements, array,
  element_array, vertex_position, normal_position, tex_coord,
}
use fhmuenster.WebGlStart.{get_instance}

abbrev pub latitude_bands : ℕ
latitude_bands = 100

abbrev pub longitude_bands : ℕ
longitude_bands = 100

-- The arrays that the constructor fills.
pub record Mesh (R : Type 0) : Type 0 where
  pub vertex_positions : List R
  pub normal_positions : List R
  pub tex : List R

-- `for (let j = 0; j < longitudeBands; j++)` of the second loop, with `n` rounds left.
pub strip_cells : (longitude : ℕ) → ℕ → ℕ → ℕ → List ℕ → List ℕ
strip_cells longitude zero i j indices = indices
strip_cells longitude (suc n) i j indices =
    let idx0 = i * (longitude + 1) + j in
    let idx1 = idx0 + longitude + 1 in
    let idx2 = idx0 + 1 in
    let idx3 = idx1 + 1 in
    strip_cells longitude n i (j + 1) (indices ++ (idx0 ∷ idx1 ∷ idx2 ∷ idx3 ∷ []))

pub strip_rows : (longitude : ℕ) → ℕ → ℕ → List ℕ → List ℕ
unfolding strip_cells
strip_rows longitude zero i indices = indices
strip_rows longitude (suc n) i indices =
    strip_rows longitude n (i + 1) (strip_cells longitude longitude i 0 indices)

-- The second double loop of the constructor.
unfoldable pub index_data : (latitude longitude : ℕ) → List ℕ
unfolding strip_rows
index_data latitude longitude = strip_rows longitude latitude 0 []

module _ (p : Platform) where
  open p use {R, of_ℕ, mul, div, sin, cos, pi}

  pub theta_of : (latitude i : ℕ) → R
  theta_of latitude i = div (mul (of_ℕ i) pi) (of_ℕ latitude)

  pub phi_of : (longitude j : ℕ) → R
  phi_of longitude j = div (mul (mul (of_ℕ j) (of_ℕ 2)) pi) (of_ℕ longitude)

  -- The body of the inner loop.
  pub push_vertex : (radius : R) (latitude longitude i j : ℕ) → Mesh R → Mesh R
  unfolding theta_of phi_of
  push_vertex radius latitude longitude i j m =
      let theta = theta_of latitude i in
      let phi = phi_of longitude j in
      let x = mul (sin theta) (sin phi) in
      let y = cos theta in
      let z = mul (sin theta) (cos phi) in
      record {
        vertex_positions = m.vertex_positions ++ (mul radius x ∷ mul radius y ∷ mul radius z ∷ []);
        normal_positions = m.normal_positions ++ (x ∷ y ∷ z ∷ []);
        tex = m.tex ++ (div (of_ℕ j) (of_ℕ longitude) ∷ div (of_ℕ i) (of_ℕ latitude) ∷ []);
      }

  pub vertex_row : (radius : R) (latitude longitude : ℕ) → ℕ → ℕ → ℕ → Mesh R → Mesh R
  unfolding push_vertex
  vertex_row radius latitude longitude zero i j m = m
  vertex_row radius latitude longitude (suc n) i j m =
      vertex_row radius latitude longitude n i (j + 1) (push_vertex radius latitude longitude i j m)

  pub vertex_rows : (radius : R) (latitude longitude : ℕ) → ℕ → ℕ → Mesh R → Mesh R
  unfolding vertex_row
  vertex_rows radius latitude longitude zero i m = m
  vertex_rows radius latitude longitude (suc n) i m =
      vertex_rows radius latitude longitude n (i + 1)
        (vertex_row radius latitude longitude (longitude + 1) i 0 m)

  -- The first double loop of the constructor: `i <= latitudeBands` and `j <= longitudeBands`.
  pub mesh_data : (radius : R) (latitude longitude : ℕ) → Mesh R
  unfolding vertex_rows
  mesh_data radius latitude longitude =
      vertex_rows radius latitude longitude (latitude + 1) 0
        (record { vertex_positions = []; normal_positions = []; tex = [] })

  pub record Sphere : Type 0 where
    pub height : R
    pub mesh : Mesh R
    pub indices : List ℕ
    pub vertex_position_buffer : ℕ
    pub normal_position_buffer : ℕ
    pub index_buffer : ℕ
    pub tex_coord_buffer : ℕ

module _ {p : Platform} where
  -- `initBuffers`: the buffers are created in the order positions, indices, normals, textures.
  unfoldable pub init_buffers : p.R → Mesh p.R → List ℕ → Gl p → Sphere p × Gl p
  init_buffers height mesh indices g =
      let g0 = get_instance g in
      let g1 =
        new_buffer g0
        ▷ Call.bind_buffer array g0.buffers
        ▷ buffer_data (float32_array p mesh.vertex_positions) in
      let g2 =
        new_buffer g1
        ▷ Call.bind_buffer element_array g1.buffers
        ▷ element_data (uint16_array indices) in
      let g3 =
        new_buffer g2
        ▷ Call.bind_buffer array g2.buffers
        ▷ buffer_data (float32_array p mesh.normal_positions) in
      let g4 =
        new_buffer g3
        ▷ Call.bind_buffer array g3.buffers
        ▷ buffer_data (float32_array p mesh.tex) in
      (
        record {
          height = height;
          mesh = mesh;
          indices = indices;
          vertex_position_buffer = g0.buffers;
          normal_position_buffer = g2.buffers;
          index_buffer = g1.buffers;
          tex_coord_buffer = g3.buffers;
        },
        g4,
      )

  -- The constructor.
  unfoldable pub new_sphere : p.R → Gl p → Sphere p × Gl p
  unfolding init_buffers
  new_sphere radius =
      init_buffers (p.mul (p.of_ℕ 2) radius) (mesh_data p radius latitude_bands longitude_bands)
        (index_data latitude_bands longitude_bands)

  unfoldable pub bind_buffers : Sphere p → Gl p → Gl p
  bind_buffers s g =
      get_instance g
      ▷ Call.bind_buffer array s.vertex_position_buffer
      ▷ vertex_attrib_pointer vertex_position 3
      ▷ Call.bind_buffer array s.normal_position_buffer
      ▷ vertex_attrib_pointer normal_position 3
      ▷ Call.bind_buffer array s.tex_coord_buffer
      ▷ vertex_attrib_pointer tex_coord 2
      ▷ Call.bind_buffer element_array s.index_buffer

  unfoldable pub draw : Sphere p → Gl p → Gl p
  unfolding bind_buffers
  draw s g = bind_buffers s (get_instance g) ▷ draw_elements (length s.indices)
