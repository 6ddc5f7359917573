-- ===== src/CubeNode/Draw.antt =====
-- What drawing a `class CubeNode` costs.
use fhmuenster.Base.{ℕ, zero, ◌∙◌, ◌+◌, suc, ◌*◌, ◌≡◌, refl, true, List, [], ◌∷◌, arith, length, ap}
use fhmuenster.Platform.{Platform}
use fhmuenster.WebGl.{Gl}
use fhmuenster.WebGlStart.{get_instance, get_instance-started, started-get_instance}
use fhmuenster.Square
use fhmuenster.Square.{Square}
use fhmuenster.Square.Draw.{drawn-draw, draw-started}
use fhmuenster.CubeNode.{CubeNode, bind_tex, draw_squares, draw}

module _ {p : Platform} where
  draw_squares-buffers :
      (ss : List (Square p)) (g : Gl p)
      → g.started ≡ true
      → (draw_squares ss g).1.buffers ≡ g.buffers + 2 * length ss
  unfolding draw_squares
  draw_squares-buffers [] g h = omega arith
  draw_squares-buffers (s ∷ ss) g h = omega (
    arith,
    draw_squares-buffers ss (Square.draw s g).1 (draw-started s g),
    (drawn-draw s g).1,
    ap (λ (k : Gl p). k.buffers) (get_instance-started g h),
  )

  draw-buffers :
      (c : CubeNode p) (g : Gl p)
      → ((draw c g).1.buffers ≡ (get_instance g).buffers + 2 * length c.squares)
  unfolding draw bind_tex
  draw-buffers c g = draw_squares-buffers c.squares (bind_tex c g) (started-get_instance g)

  length-draw_squares : (ss : List (Square p)) (g : Gl p) → length (draw_squares ss g).0 ≡ length ss
  unfolding draw_squares
  length-draw_squares [] g = refl
  length-draw_squares (s ∷ ss) g = ap suc (length-draw_squares ss (Square.draw s g).1)

  length-draw : (c : CubeNode p) (g : Gl p) → length (draw c g).0.squares ≡ length c.squares
  unfolding draw
  length-draw c g = length-draw_squares c.squares (bind_tex c g)

  -- The cube and WebGL after `n` frames.
  unfoldable pub draw_times : ℕ → CubeNode p → Gl p → CubeNode p × Gl p
  draw_times zero c g = (c, g)
  draw_times (suc n) c g = let (c', g') = draw c g in draw_times n c' g'

  draw_squares-started :
      (ss : List (Square p)) (g : Gl p) → g.started ≡ true → (draw_squares ss g).1.started ≡ true
  unfolding draw_squares
  draw_squares-started [] g h = h
  draw_squares-started (s ∷ ss) g h = draw_squares-started ss (Square.draw s g).1 (draw-started s g)

  draw-same_buffers :
      (c : CubeNode p) (g : Gl p) → (get_instance (draw c g).1).buffers ≡ (draw c g).1.buffers
  unfolding draw bind_tex
  draw-same_buffers c g =
      ap (λ (k : Gl p). k.buffers)
        (get_instance-started (draw_squares c.squares (bind_tex c g)).1
          (draw_squares-started c.squares (bind_tex c g) (started-get_instance g)))

  -- In `n + 1` frames a cube creates two buffers for each of its squares in every frame, whatever
  -- was there before.
  pub draw_times-buffers :
      (n : ℕ) (c : CubeNode p) (g : Gl p)
      → (draw_times (suc n) c g).1.buffers
        ≡ (get_instance g).buffers + suc n * (2 * length c.squares)
  unfolding draw_times
  draw_times-buffers zero c g = omega (arith, draw-buffers c g)
  draw_times-buffers (suc n) c g =
      let (c', g') = draw c g in
      draw_times-buffers n c' g'
      ∙ rw (length-draw c g, draw-same_buffers c g, draw-buffers c g) (grind arith)
