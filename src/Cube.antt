-- ===== src/Cube.antt =====
-- Computergrafik/src/forms/cube.ts: `class Cube`, a square whose constructor makes five more.
pub mod Squares
use fhmuenster.Platform.{Platform}
use fhmuenster.WebGl.{Gl}
use fhmuenster.Square.{Square, new_square}

-- The object is its `Square`; the five other squares are local to the constructor.
abbrev pub Cube : Platform → Type 0
Cube p = Square p

module _ {p : Platform} where
  unfoldable pub new_cube : (heigth width depth : p.R) → Gl p → Cube p × Gl p
  unfolding new_square
  new_cube heigth width depth g =
      let h = p.div heigth (p.of_ℕ 2) in
      let nh = p.div (p.neg heigth) (p.of_ℕ 2) in
      let w = p.div width (p.of_ℕ 2) in
      let nw = p.div (p.neg width) (p.of_ℕ 2) in
      let d = p.div depth (p.of_ℕ 2) in
      let nd = p.div (p.neg depth) (p.of_ℕ 2) in
      let v1 = p.vec3 h w nd in
      let v2 = p.vec3 h nw nd in
      let v3 = p.vec3 nh nw nd in
      let v4 = p.vec3 nh w nd in
      let v5 = p.vec3 h w d in
      let v6 = p.vec3 h nw d in
      let v7 = p.vec3 nh nw d in
      let v8 = p.vec3 nh w d in
      let (cube, g1) = new_square v1 v2 v3 v4 g in
      let (background, g2) = new_square v6 v5 v8 v7 g1 in
      let (top, g3) = new_square v5 v6 v2 v1 g2 in
      let (right, g4) = new_square v5 v1 v4 v8 g3 in
      let (left, g5) = new_square v2 v6 v7 v3 g4 in
      let (bottom, g6) = new_square v4 v3 v7 v8 g5 in (cube, g6)
