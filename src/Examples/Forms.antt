-- ===== src/Examples/Forms.antt =====
-- The theorems on the older forms.
use fhmuenster.Base.{ℕ, ◌+◌, ◌≡◌, some, List, [], ◌∷◌, arith, length, get_elem?}
use fhmuenster.Platform.{float32_array}
use fhmuenster.Platform.Symbolic.{symbolic, whole}
use fhmuenster.WebGl.{Call, draw_arrays, vertex_position}
use fhmuenster.WebGl.Bindings.{source, contents}
use fhmuenster.WebGlStart.{get_instance}
use fhmuenster.FlatSphere
use fhmuenster.FlatSphere.{calc_vertices, new_flat_sphere}
use fhmuenster.FlatSphere.Circle.{rim, calc_vertices-rim, draw-calc_vertices}
use fhmuenster.Square.{Square}
use fhmuenster.CubeNode.{corners, faces, new_squares}
use fhmuenster.Cube.{new_cube}
use fhmuenster.Cube.Squares.{new_cube-squares}
use fhmuenster.Examples.Data.{blank}

calc_vertices-rim_example :
    (length (calc_vertices symbolic (whole 5) (whole 0 ∷ [])) ≡ 363)
    × (get_elem? (calc_vertices symbolic (whole 5) (whole 0 ∷ [])) 91
        ≡ get_elem? (rim symbolic (whole 5) 30) 1)
calc_vertices-rim_example =
    calc_vertices-rim symbolic (whole 5) (whole 0) 30 1 (omega arith) (omega arith)

draw-calc_vertices_example :
    let (s, g') = new_flat_sphere (whole 8) (whole 1 ∷ []) blank in
    let numbers =
      float32_array symbolic
        (calc_vertices symbolic (symbolic.div (whole 8) (whole 2)) (whole 0 ∷ [])) in
    ((log : List (Call symbolic)) × (buffer : ℕ) × ((FlatSphere.draw s g').log
        ≡ draw_arrays 0 120 ∷ log)
      × (source vertex_position log ≡ some buffer)
      × (contents buffer log ≡ some numbers))
    × (length numbers ≡ 363)
draw-calc_vertices_example = draw-calc_vertices (whole 8) (whole 1 ∷ []) blank

new_cube-squares_example :
    let (squares, g') =
      new_squares (faces (corners symbolic (whole 1) (whole 2) (whole 3))) blank in
    (others : List (Square symbolic)) × (squares
      ≡ (new_cube (whole 1) (whole 2) (whole 3) blank).0 ∷ others)
    × (length others ≡ 5)
    × ((new_cube (whole 1) (whole 2) (whole 3) blank).1 ≡ g')
    × (g'.buffers ≡ (get_instance blank).buffers + 30)
new_cube-squares_example = new_cube-squares (whole 1) (whole 2) (whole 3) blank
