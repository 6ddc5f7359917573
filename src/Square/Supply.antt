-- ===== src/Square/Supply.antt =====
-- What the buffers of `class Square` and its triangles hold for the draw calls.
use fhmuenster.Base.{refl, [], ◌∷◌, arith}
use fhmuenster.Platform.{Platform, Vec3, float32_array}
use fhmuenster.WebGl.{Gl, Call, ◌▷◌, new_buffer, buffer_data, array}
use fhmuenster.WebGl.Supply.{
  Extends, Extends-trans, Supports, Supports-trans, get_instance-Supports, filled-Supports, range,
  Supports-after,
}
use fhmuenster.WebGl.Supply.Stores.{Stores, Stores-Extends, rounded-Stores, Stores-Supplies}
use fhmuenster.WebGlStart.{get_instance}
use fhmuenster.Triangle
use fhmuenster.Triangle.{Triangle, new_triangle, coordinates}
use fhmuenster.Square.{Square, init_buffer, bind_buffer, draw_half, draw, new_square, lower_left}

module _ {p : Platform} where
  -- The triangle's own buffers hold its three corners and normals.
  abbrev pub TriangleStores : Triangle p → Gl p → Type 0
  TriangleStores t g =
      Stores 3 (range 0 3) t.vertex_position_buffer g
      × Stores 3 (range 0 3) t.normal_position_buffer g

  abbrev pub SquareStores : Square p → Gl p → Type 0
  SquareStores s g = TriangleStores s.triangle0 g × TriangleStores s.triangle1 g

  TriangleStores-Extends :
      (t : Triangle p) {g g' : Gl p} → Extends g g' → TriangleStores t g → TriangleStores t g'
  TriangleStores-Extends t e h = (Stores-Extends e h.0, Stores-Extends e h.1)

  pub SquareStores-Extends :
      (s : Square p) {g g' : Gl p} → Extends g g' → SquareStores s g → SquareStores s g'
  SquareStores-Extends s e h =
      (TriangleStores-Extends s.triangle0 e h.0, TriangleStores-Extends s.triangle1 e h.1)

  -- The constructor of a triangle.
  Triangle-init_buffers :
      (a b c d e f : Vec3 p.R) (g : Gl p)
      → let (t, g') =
          Triangle.init_buffers
            (coordinates a (coordinates b (coordinates c [])))
            (coordinates d (coordinates e (coordinates f [])))
            g in
        Supports g g' × TriangleStores t g'
  unfolding Triangle.init_buffers
  Triangle-init_buffers a b c d e f g = (
    record {
      extends = record {
        grows = omega arith;
        stored = λ b lt. ground arith;
        indexed = λ b lt. refl;
      };
      supplied = λ s. s;
    },
    (
      rounded-Stores (coordinates a (coordinates b (coordinates c []))) (omega arith) (ground arith)
          (omega arith, (omega arith, (omega arith, tt))),
      rounded-Stores (coordinates d (coordinates e (coordinates f []))) (omega arith) (ground arith)
          (omega arith, (omega arith, (omega arith, tt))),
    ),
  )

  new_triangle-Stores :
      (a b c : Vec3 p.R) (g : Gl p)
      → let (t, g') = new_triangle a b c g in Supports g g' × TriangleStores t g'
  unfolding new_triangle
  new_triangle-Stores a b c g =
      let n = p.cross3 (p.subtract3 b a) (p.subtract3 c a) in
      let (supports, stores) = Triangle-init_buffers a b c n n n (get_instance g) in
      (Supports-trans (get_instance-Supports g) supports, stores)

  init_buffer-Supports : (s : Square p) (g : Gl p) → Supports g (init_buffer s g).1
  unfolding init_buffer
  init_buffer-Supports s g = Supports-trans (get_instance-Supports g) (filled-Supports _ _)

  -- The constructor fills the triangles' buffers with what every draw call needs.
  pub new_square-Stores :
      (a b c d : Vec3 p.R) (g : Gl p)
      → let (s, g') = new_square a b c d g in Supports g g' × SquareStores s g'
  unfolding new_square init_buffer
  new_square-Stores a b c d g =
      let (t0, g1) = new_triangle a b c g in
      let (t1, g2) = new_triangle c d a g1 in
      let (h0, k0) = new_triangle-Stores a b c g in
      let (h1, k1) = new_triangle-Stores c d a g1 in
      let last =
        Supports-trans (get_instance-Supports g2) (filled-Supports (float32_array p []) _) in
      (
        Supports-trans h0 (Supports-trans h1 last),
        (
          TriangleStores-Extends t0 (Extends-trans h1.extends last.extends) k0,
          TriangleStores-Extends t1 last.extends k1,
        ),
      )

  -- A draw call of a half is supplied.
  draw_half-Supports :
      (u v w x y z : p.R) (t : Triangle p) (s : Square p) (g : Gl p)
      → TriangleStores t g
      → Supports g (draw_half (u ∷ v ∷ w ∷ x ∷ y ∷ z ∷ []) t s g).1
  unfolding draw_half init_buffer bind_buffer Triangle.draw
  draw_half-Supports u v w x y z t s g h =
      let tex = u ∷ v ∷ w ∷ x ∷ y ∷ z ∷ [] in
      let g0 = get_instance g in
      let g1 =
        new_buffer g0 ▷ Call.bind_buffer array g0.buffers ▷ buffer_data (float32_array p tex) in
      let before =
        Supports-trans (get_instance-Supports g) (filled-Supports (float32_array p tex) g0) in
      let again = get_instance-Supports g1 in
      let supports = Supports-trans before again in
      let (positions, normals) = TriangleStores-Extends t supports.extends h in
      let textures : Stores 2 (range 0 3) g0.buffers (get_instance g1) =
        Stores-Extends again.extends (
          rounded-Stores tex (omega arith) (ground arith)
            (omega arith, (omega arith, (omega arith, tt)))) in
      Supports-after _ supports refl (λ b. refl) (λ b. refl)
        λ r. (
          (
            Stores-Supplies positions refl refl refl,
            Stores-Supplies normals refl refl refl,
            Stores-Supplies textures refl refl refl,
          ),
          r,
        )

  -- Both draw calls of a square are supplied.
  pub draw-Supports :
      (s : Square p) (g : Gl p)
      → SquareStores s g
      → Supports g (draw s g).1 × SquareStores (draw s g).0 (draw s g).1
  unfolding draw draw_half init_buffer
  draw-Supports s g (h0, h1) =
      let (s1, g1) = draw_half (lower_left p) s.triangle0 s g in
      let first = draw_half-Supports _ _ _ _ _ _ s.triangle0 s g h0 in
      let second =
        draw_half-Supports _ _ _ _ _ _ s.triangle1 s1 g1
          (TriangleStores-Extends s.triangle1 first.extends h1) in
      let both = Supports-trans first second in (both, SquareStores-Extends s both.extends (h0, h1))
