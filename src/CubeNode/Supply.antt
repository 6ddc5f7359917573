-- ===== src/CubeNode/Supply.antt =====
-- What the buffers of `class CubeNode` hold for the draw calls.
use fhmuenster.Base.{refl, List, [], ◌∷◌, All, All-map}
use fhmuenster.Platform.{Platform, float32_array}
use fhmuenster.WebGl.{Gl}
use fhmuenster.WebGl.Supply.{
  Supports-refl, Supports-after, Extends, Supports-refl, Supports, Supports-trans, Supports-after,
  get_instance-Supports, filled-Supports,
}
use fhmuenster.WebGlStart.{get_instance}
use fhmuenster.Square
use fhmuenster.Square.{Square, new_square}
use fhmuenster.Square.Supply.{SquareStores, SquareStores-Extends, new_square-Stores}
use fhmuenster.Square.Supply
use fhmuenster.CubeNode.{
  CubeNode, Face, faces, corners, new_squares, push_tex, init_tex, new_cube_node, bind_tex,
  draw_squares, draw,
}

module _ {p : Platform} where
  abbrev pub SquaresStore : List (Square p) → Gl p → Type 0
  SquaresStore ss g = All (λ s. SquareStores s g) ss

  pub SquaresStore-Extends :
      (ss : List (Square p)) {g g' : Gl p} → Extends g g' → SquaresStore ss g → SquaresStore ss g'
  SquaresStore-Extends ss {g} {g'} e h =
      All-map (λ s (k : SquareStores s g). SquareStores-Extends s e k) ss h

  new_squares-Store :
      (fs : List (Face p.R)) (g : Gl p)
      → let (ss, g') = new_squares fs g in Supports g g' × SquaresStore ss g'
  unfolding new_squares
  new_squares-Store [] g = (Supports-refl g, tt)
  new_squares-Store (f ∷ fs) g =
      let (s, g1) = new_square f.a f.b f.c f.d g in
      let (first, stores) = new_square-Stores f.a f.b f.c f.d g in
      let (rest, store) = new_squares-Store fs g1 in
      (Supports-trans first rest, (SquareStores-Extends s rest.extends stores, store))

  -- The constructor fills the squares' buffers with what every draw call needs.
  pub new_cube_node-Stores :
      (h w d : p.R) (g : Gl p)
      → let (c, g') = new_cube_node h w d g in Supports g g' × SquaresStore c.squares g'
  unfolding new_cube_node init_tex
  new_cube_node-Stores h w d g =
      let (squares, g1) = new_squares (faces (corners p h w d)) (get_instance g) in
      let (made, stores) = new_squares-Store (faces (corners p h w d)) (get_instance g) in
      let last = filled-Supports (float32_array p (push_tex squares [])) g1 in
      (
        Supports-trans (get_instance-Supports g) (Supports-trans made last),
        SquaresStore-Extends squares last.extends stores,
      )

  draw_squares-Supports :
      (ss : List (Square p)) (g : Gl p)
      → SquaresStore ss g
      → Supports g (draw_squares ss g).1 × SquaresStore (draw_squares ss g).0 (draw_squares ss g).1
  unfolding draw_squares
  draw_squares-Supports [] g h = (Supports-refl g, tt)
  draw_squares-Supports (s ∷ ss) g (h, hs) =
      let (s', g1) = Square.draw s g in
      let (first, stores) = Supply.draw-Supports s g h in
      let (rest, store) = draw_squares-Supports ss g1 (SquaresStore-Extends ss first.extends hs) in
      (Supports-trans first rest, (SquareStores-Extends s' rest.extends stores, store))

  -- All twelve draw calls of a cube are supplied.
  pub draw-Supports :
      (c : CubeNode p) (g : Gl p)
      → SquaresStore c.squares g
      → Supports g (draw c g).1 × SquaresStore (draw c g).0.squares (draw c g).1
  unfolding draw bind_tex
  draw-Supports c g h =
      let tex =
        Supports-after (bind_tex c g) (get_instance-Supports g) refl (λ b. refl) (λ b. refl)
          (λ s. s) in
      let (supports, stores) =
        draw_squares-Supports c.squares (bind_tex c g)
          (SquaresStore-Extends c.squares tex.extends h) in
      (Supports-trans tex supports, stores)
