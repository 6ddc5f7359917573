-- ===== src/Examples/Geometry.antt =====
-- The theorems on meshes and their buffers.
use fhmuenster.Base.{ℕ, ◌+◌, ◌*◌, ◌<◌, ◌≡◌, refl, some, [], ◌∷◌, arith, length, get_elem?, All}
use fhmuenster.Platform.{float32_array, uint16_array}
use fhmuenster.Platform.Symbolic.{symbolic, whole}
use fhmuenster.WebGl.{draw_elements, vertex_position, normal_position, tex_coord}
use fhmuenster.WebGl.Bindings.{source, element_buffer, contents, elements}
use fhmuenster.WebGlStart.{get_instance}
use fhmuenster.Triangle.{Triangle}
use fhmuenster.Square
use fhmuenster.Square.{Square, lower_left, upper_right}
use fhmuenster.Square.Draw.{drawn, half, drawn-draw}
use fhmuenster.CubeNode.{CubeNode, new_cube_node}
use fhmuenster.CubeNode.Draw.{draw_times, draw_times-buffers}
use fhmuenster.Sphere.{Sphere, new_sphere, draw, bind_buffers, index_data, mesh_data}
use fhmuenster.Sphere.Strip.{index_data-corners, uint16_array-index_data}
use fhmuenster.Sphere.Vertices.{unit_point, scaled_point, tex_point, mesh_data-vertex}
use fhmuenster.Sphere.Draw.{draw-sources, new_sphere-contents, new_sphere_bounds}
use fhmuenster.Examples.Data.{blank}

-- A mesh of two bands by three.
small_strip :
    index_data 2 3
    ≡ 0 ∷ 4 ∷ 1 ∷ 5 ∷ 1 ∷ 5 ∷ 2 ∷ 6 ∷ 2 ∷ 6 ∷ 3 ∷ 7 ∷ 4 ∷ 8 ∷ 5 ∷ 9 ∷ 5 ∷ 9 ∷ 6 ∷ 10 ∷ 6 ∷ 10 ∷ 7
      ∷ 11 ∷ []
unfolding index_data
small_strip = refl

index_data-corners_example :
    (get_elem? (index_data 2 3) 20 ≡ some 6)
    × (get_elem? (index_data 2 3) 21 ≡ some 10)
    × (get_elem? (index_data 2 3) 22 ≡ some 7)
    × (get_elem? (index_data 2 3) 23 ≡ some 11)
index_data-corners_example = index_data-corners 2 3 1 2 (omega arith) (omega arith)

uint16_array-index_data_example : uint16_array (index_data 2 3) ≡ index_data 2 3
uint16_array-index_data_example = uint16_array-index_data 2 3 (omega arith)

mesh_data-vertex_example :
    let m = mesh_data symbolic (whole 5) 2 3 in
    ((c : ℕ)
      → c < 3
      → get_elem? m.vertex_positions (6 * 3 + c)
        ≡ get_elem? (scaled_point symbolic (whole 5) 2 3 1 2) c)
    × ((c : ℕ)
        → c < 3
        → get_elem? m.normal_positions (6 * 3 + c) ≡ get_elem? (unit_point symbolic 2 3 1 2) c)
    × ((c : ℕ) → c < 2 → get_elem? m.tex (6 * 2 + c) ≡ get_elem? (tex_point symbolic 2 3 1 2) c)
mesh_data-vertex_example = mesh_data-vertex symbolic (whole 5) 2 3 1 2 (omega arith) (omega arith)

new_sphere-contents_example :
    let (s, g') = new_sphere (whole 5) blank in
    (contents s.vertex_position_buffer g'.log
      ≡ some (float32_array symbolic s.mesh.vertex_positions))
    × (contents s.normal_position_buffer g'.log
        ≡ some (float32_array symbolic s.mesh.normal_positions))
    × (contents s.tex_coord_buffer g'.log ≡ some (float32_array symbolic s.mesh.tex))
    × (elements s.index_buffer g'.log ≡ some s.indices)
new_sphere-contents_example = new_sphere-contents {p = symbolic} (whole 5) blank

new_sphere_bounds_example :
    let s = (new_sphere (whole 5) blank).0 in
    All
      (λ k.
        (3 * k + 2 < length s.mesh.vertex_positions)
        × (3 * k + 2 < length s.mesh.normal_positions)
        × (2 * k + 1 < length s.mesh.tex))
      s.indices
    × (length s.indices ≡ 40_000)
new_sphere_bounds_example = new_sphere_bounds {p = symbolic} (whole 5) blank

-- A sphere of one triangle.
abbrev chip : Sphere symbolic
chip = record {
  height = whole 2;
  mesh = record { vertex_positions = []; normal_positions = []; tex = [] };
  indices = 0 ∷ 1 ∷ 2 ∷ [];
  vertex_position_buffer = 3;
  normal_position_buffer = 4;
  index_buffer = 5;
  tex_coord_buffer = 6;
}

draw-sources_example :
    ((draw chip blank).log ≡ draw_elements 3 ∷ (bind_buffers chip (get_instance blank)).log)
    × (source vertex_position (draw chip blank).log ≡ some 3)
    × (source normal_position (draw chip blank).log ≡ some 4)
    × (source tex_coord (draw chip blank).log ≡ some 6)
    × (element_buffer (draw chip blank).log ≡ some 5)
draw-sources_example = draw-sources chip blank

abbrev tile : ℕ → Triangle symbolic
tile b = record {
  vertices = [];
  normal = [];
  vertex_position_buffer = b;
  normal_position_buffer = b + 1;
}

abbrev card : Square symbolic
card = record {
  text_position_data = [];
  texture_position_buffer = 9;
  triangle0 = tile 5;
  triangle1 = tile 7;
}

drawn-draw_example :
    let g' = (Square.draw card blank).1 in
    (drawn g'.log ≡ half (upper_right symbolic) (tile 7) ∷ half (lower_left symbolic) (tile 5) ∷ [])
    × (g'.buffers ≡ 2)
unfolding drawn get_instance
drawn-draw_example = drawn-draw card blank

abbrev box : CubeNode symbolic
box = (new_cube_node (whole 1) (whole 1) (whole 1) blank).0

draw_times-buffers_example :
    (draw_times 7 box blank).1.buffers ≡ (get_instance blank).buffers + 7 * (2 * length box.squares)
draw_times-buffers_example = draw_times-buffers 6 box blank
