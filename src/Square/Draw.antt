-- ===== src/Square/Draw.antt =====
-- The two draw calls of `class Square`, and what they read.
use mathlib.Core.Path.{subst}
use fhmuenster.Base.{ℕ, ◌+◌, ◌≡◌, sym, ap, ◌∙◌, true, Option, none, some, List, [], ◌∷◌, arith}
use fhmuenster.Platform.{Platform, float32_array}
use fhmuenster.WebGl.{
  Gl, Call, ◌▷◌, new_buffer, buffer_data, vertex_attrib_pointer, array, draw_arrays, draw_elements,
  vertex_position, normal_position, tex_coord,
}
use fhmuenster.WebGl.Bindings.{source, contents}
use fhmuenster.WebGlStart.{
  create_shaders, report_link, init_shaders, webgl_start_example, start, get_instance,
  get_instance-started, started-get_instance,
}
use fhmuenster.Triangle
use fhmuenster.Triangle.{Triangle}
use fhmuenster.Square.{Square, lower_left, upper_right, init_buffer, bind_buffer, draw_half, draw}

-- A draw call of a log: of `drawArrays` the first vertex and their number, the buffers of the
-- positions and of the normals, and the numbers in the buffer of the texture coordinates.
pub data Drawn (p : Platform) : Type 0 where
  arrays : ℕ → ℕ → Option ℕ → Option ℕ → Option (List p.R) → Drawn p
  elements : ℕ → Drawn p

module _ {p : Platform} where
  abbrev contents_of : Option ℕ → List (Call p) → Option (List p.R)
  contents_of none log = none
  contents_of (some b) log = contents b log

  -- All draw calls of a log, latest first.
  unfoldable pub drawn : List (Call p) → List (Drawn p)
  drawn [] = []
  drawn (draw_arrays i n ∷ log) =
      arrays i n (source vertex_position log) (source normal_position log)
        (contents_of (source tex_coord log) log)
      ∷ drawn log
  drawn (draw_elements n ∷ log) = elements n ∷ drawn log
  drawn (_ ∷ log) = drawn log

  -- Three vertices of the triangle with the texture coordinates `tex`.
  abbrev pub half : List p.R → Triangle p → Drawn p
  half tex t =
      arrays 0 3 (some t.vertex_position_buffer) (some t.normal_position_buffer)
        (some (float32_array p tex))

  drawn-get_instance : (g : Gl p) → drawn (get_instance g).log ≡ drawn g.log
  unfolding drawn get_instance start webgl_start_example init_shaders create_shaders report_link
  drawn-get_instance g = ground arith

  drawn-draw_half :
      (tex : List p.R) (t : Triangle p) (s : Square p) (g : Gl p)
      → drawn (draw_half tex t s g).1.log ≡ half tex t ∷ drawn g.log
  unfolding draw_half init_buffer bind_buffer Triangle.draw drawn
  drawn-draw_half tex t s g =
      let g0 = get_instance g in
      let g1 =
        new_buffer g0 ▷ Call.bind_buffer array g0.buffers ▷ buffer_data (float32_array p tex) in
      let again : get_instance g1 ≡ g1 = get_instance-started g1 (started-get_instance g) in
      subst
        (λ h.
          drawn
            (Triangle.draw t 3
              (h ▷ Call.bind_buffer array g0.buffers ▷ vertex_attrib_pointer tex_coord 2)).log
          ≡ half tex t ∷ drawn g.log)
        (sym again) (ground (arith, drawn-get_instance g))

  draw_half-again :
      (tex : List p.R) (t : Triangle p) (s : Square p) (g : Gl p)
      → (draw_half tex t s g).1.started ≡ true
        × ((draw_half tex t s g).1.buffers ≡ (get_instance g).buffers + 1)
  unfolding draw_half init_buffer bind_buffer Triangle.draw
  draw_half-again tex t s g =
      let g0 = get_instance g in
      let g1 =
        new_buffer g0 ▷ Call.bind_buffer array g0.buffers ▷ buffer_data (float32_array p tex) in
      let again : get_instance g1 ≡ g1 = get_instance-started g1 (started-get_instance g) in
      (
        ap (λ (h : Gl p). h.started) again ∙ started-get_instance g,
        ap (λ (h : Gl p). h.buffers) again,
      )

  draw_half-started :
      (tex : List p.R) (t : Triangle p) (s : Square p) (g : Gl p)
      → (draw_half tex t s g).1.started ≡ true
  draw_half-started tex t s g = (draw_half-again tex t s g).0

  draw_half-buffers :
      (tex : List p.R) (t : Triangle p) (s : Square p) (g : Gl p)
      → (draw_half tex t s g).1.buffers ≡ (get_instance g).buffers + 1
  draw_half-buffers tex t s g = (draw_half-again tex t s g).1

  -- `draw` makes two draw calls and no other, after those made before: first of its lower left
  -- triangle, then of its upper right one, each of three vertices with the triangle's own positions
  -- and normals, and with the texture coordinates of its corners in the buffer that is read then.
  -- It creates two new buffers for these.
  pub drawn-draw :
      (s : Square p) (g : Gl p)
      → let g' = (draw s g).1 in
        (drawn g'.log
          ≡ half (upper_right p) s.triangle1 ∷ half (lower_left p) s.triangle0 ∷ drawn g.log)
        × (g'.buffers ≡ (get_instance g).buffers + 2)
  unfolding draw
  drawn-draw s g =
      let (s1, g1) = draw_half (lower_left p) s.triangle0 s g in
      (
        drawn-draw_half (upper_right p) s.triangle1 s1 g1
            ∙ ap (λ rest. half (upper_right p) s.triangle1 ∷ rest)
                (drawn-draw_half (lower_left p) s.triangle0 s g),
        omega (
          arith,
          draw_half-buffers (lower_left p) s.triangle0 s g,
          draw_half-buffers (upper_right p) s.triangle1 s1 g1,
          ap (λ (h : Gl p). h.buffers)
              (get_instance-started g1 (draw_half-started (lower_left p) s.triangle0 s g)),
        ),
      )

  pub draw-started : (s : Square p) (g : Gl p) → (draw s g).1.started ≡ true
  unfolding draw
  draw-started s g =
      let (s1, g1) = draw_half (lower_left p) s.triangle0 s g in
      draw_half-started (upper_right p) s.triangle1 s1 g1
