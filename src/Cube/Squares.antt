-- ===== src/Cube/Squares.antt =====
-- What is left of the squares of `class Cube`.
use fhmuenster.Base.{◌+◌, ◌*◌, ◌<◌, ◌≡◌, refl, ap, true, List, [], ◌∷◌, arith, length}
use fhmuenster.Platform.{Platform, Vec3}
use fhmuenster.WebGl.{Gl}
use fhmuenster.WebGlStart.{get_instance, get_instance-started, started-get_instance}
use fhmuenster.Triangle
use fhmuenster.Triangle.{Triangle, new_triangle}
use fhmuenster.Square.{Square, new_square, init_buffer}
use fhmuenster.CubeNode.{Face, corners, faces, new_squares}
use fhmuenster.Cube.{new_cube}

module _ {p : Platform} where
  new_triangle-buffers :
      (v1 v2 v3 : Vec3 p.R) (g : Gl p)
      → ((new_triangle v1 v2 v3 g).1.buffers ≡ (get_instance g).buffers + 2)
        × ((new_triangle v1 v2 v3 g).1.started ≡ true)
  unfolding new_triangle Triangle.init_buffers
  new_triangle-buffers v1 v2 v3 g = (omega arith, started-get_instance g)

  same_buffers : (g : Gl p) → g.started ≡ true → (get_instance g).buffers ≡ g.buffers
  same_buffers g h = ap (λ (k : Gl p). k.buffers) (get_instance-started g h)

  new_square-buffers :
      (v1 v2 v3 v4 : Vec3 p.R) (g : Gl p)
      → ((new_square v1 v2 v3 v4 g).1.buffers ≡ (get_instance g).buffers + 5)
        × ((new_square v1 v2 v3 v4 g).1.started ≡ true)
  unfolding new_square init_buffer
  new_square-buffers v1 v2 v3 v4 g =
      let g1 = (new_triangle v1 v2 v3 g).1 in
      let first = new_triangle-buffers v1 v2 v3 g in
      let g2 = (new_triangle v3 v4 v1 g1).1 in
      let second = new_triangle-buffers v3 v4 v1 g1 in
      (
        omega (arith, first.0, second.0, same_buffers g1 first.1, same_buffers g2 second.1),
        started-get_instance g2,
      )

  new_squares-buffers :
      (fs : List (Face p.R)) (g : Gl p)
      → 0 < length fs
      → (new_squares fs g).1.buffers ≡ (get_instance g).buffers + 5 * length fs
  unfolding new_squares
  new_squares-buffers [] g h = absurd (omega arith)
  new_squares-buffers (f ∷ []) g h = omega (arith, (new_square-buffers f.a f.b f.c f.d g).0)
  new_squares-buffers (f ∷ f' ∷ fs) g h =
      let g1 = (new_square f.a f.b f.c f.d g).1 in
      let made = new_square-buffers f.a f.b f.c f.d g in
      omega (arith, made.0, same_buffers g1 made.1, new_squares-buffers (f' ∷ fs) g1 (omega arith))

  -- Of the six squares that a `CubeNode` of the same sides makes and keeps, a `Cube` is the first
  -- alone; its constructor makes the other five in the same way, with 30 buffers for all six.
  pub new_cube-squares :
      (heigth width depth : p.R) (g : Gl p)
      → let (squares, g') = new_squares (faces (corners p heigth width depth)) g in
        (others : List (Square p)) × (squares ≡ (new_cube heigth width depth g).0 ∷ others)
        × (length others ≡ 5)
        × ((new_cube heigth width depth g).1 ≡ g')
        × (g'.buffers ≡ (get_instance g).buffers + 30)
  unfolding new_cube new_squares faces corners
  new_cube-squares heigth width depth g = (
    _,
    refl,
    refl,
    refl,
    new_squares-buffers (faces (corners p heigth width depth)) g (omega arith),
  )
