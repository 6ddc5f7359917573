-- ===== src/Scenegraph/Requests.antt =====
-- The animation frames that a traversal asks for.
use fhmuenster.Base.{ℕ, ◌≡◌, refl, ◌∙◌, ap, inl, inr, Option, none, some, List, [], ◌∷◌}
use fhmuenster.Platform.{Platform}
use fhmuenster.WebGl.{Gl, ◌▷◌, uniform_matrix4, uniform_matrix3, model_view_matrix, normal_matrix}
use fhmuenster.WebGl.Requests.{requests, requested, requested-get_instance}
use fhmuenster.Camera
use fhmuenster.Camera.View.{draw_view}
use fhmuenster.Light
use fhmuenster.Material
use fhmuenster.Texture
use fhmuenster.Sphere
use fhmuenster.Sphere.{bind_buffers}
use fhmuenster.Square
use fhmuenster.Square.{Square}
use fhmuenster.Triangle
use fhmuenster.CubeNode
use fhmuenster.CubeNode.{draw_squares, bind_tex}
use fhmuenster.SgNode.{
  update_light, Kind, Node, Scene, draw_kind, drawn_camera, plain, component, camera, orbit, planet,
  light, material, texture, sphere, cube,
}
use fhmuenster.Scenegraph.{World, ok, ◌>>=◌, or_throw, show, draw_traversal, put_back}
use fhmuenster.Scenegraph.Holds.{Holds, Holds-map, or_throw-Holds, draw_traversal-Holds}

module _ {p : Platform} where
  -- A kind's `draw` leaves the number of requests.
  abbrev Quiet : ℕ → Option (Kind p × p.Mat4 × Gl p) → Type 0
  Quiet n none = Unit
  Quiet n (some (k, t, g)) = requested g ≡ n

  Square-draw_quiet : (s : Square p) (g : Gl p) → requested (Square.draw s g).1 ≡ requested g
  unfolding Square.draw Square.draw_half Square.init_buffer Square.bind_buffer Triangle.draw
  Square-draw_quiet s g =
      requested-get_instance _
      ∙ requested-get_instance _
      ∙ requested-get_instance _
      ∙ requested-get_instance g

  draw_squares_quiet :
      (ss : List (Square p)) (g : Gl p) → requested (draw_squares ss g).1 ≡ requested g
  unfolding draw_squares
  draw_squares_quiet [] g = refl
  draw_squares_quiet (s ∷ ss) g = draw_squares_quiet ss (Square.draw s g).1 ∙ Square-draw_quiet s g

  drawn_camera-Quiet :
      (c : Camera.Camera p) (t : p.Mat4) (g : Gl p)
      → Quiet (requested g) (drawn_camera t (Camera.draw c g))
  drawn_camera-Quiet c t g = elim (draw_view c g) [
    | inl (threw, _) ↦ rw threw tt
    | inr (view, c', g', drawn, regular, matrix, speeds, fov, log) ↦
        rw drawn (ap requests log ∙ requested-get_instance g)
  ]

  draw_kind-Quiet :
      (days : p.R) (k : Kind p) (t : p.Mat4) (g : Gl p) → Quiet (requested g) (draw_kind days k t g)
  unfolding draw_kind Light.draw Material.draw Texture.draw Sphere.draw bind_buffers CubeNode.draw
      bind_tex
  draw_kind-Quiet days plain t g = refl
  draw_kind-Quiet days (component name) t g = refl
  draw_kind-Quiet days (camera c) t g = drawn_camera-Quiet c t g
  draw_kind-Quiet days (orbit o) t g = refl
  draw_kind-Quiet days (planet o) t g = refl
  draw_kind-Quiet days (light l) t g = requested-get_instance g
  draw_kind-Quiet days (material m) t g = requested-get_instance g
  draw_kind-Quiet days (texture x) t g = requested-get_instance g
  draw_kind-Quiet days (sphere s) t g = requested-get_instance _ ∙ requested-get_instance g
  draw_kind-Quiet days (cube c) t g = draw_squares_quiet c.squares _ ∙ requested-get_instance g

  show_quiet :
      (days : p.R) (world : p.Mat4) (id : ℕ) (n : Node p) (s : Scene p)
      → Holds (λ r. requested r.1.gl ≡ requested s.gl) (show days world id n s)
  unfolding show
  show_quiet days world id n s =
      or_throw-Holds (λ (r : Node p × Scene p). requested r.1.gl ≡ requested s.gl)
        (p.normal_from_mat4 world) _
        λ normal upright.
          let g =
            s.gl ▷ uniform_matrix4 model_view_matrix world ▷ uniform_matrix3 normal_matrix normal in
          put_quiet (draw_kind days (update_light world n.kind) n.trafo g)
            (draw_kind-Quiet days (update_light world n.kind) n.trafo g)
    where
      put_quiet :
          (drawn : Option (Kind p × p.Mat4 × Gl p))
          → Quiet (requested s.gl) drawn
          → Holds
              (λ r. requested r.1.gl ≡ requested s.gl)
              (or_throw drawn >>= λ d. ok (put_back id n s d))
      put_quiet none h = tt
      put_quiet (some (k, t, g)) h = h

  -- A traversal asks for no frame.
  pub draw_traversal_quiet :
      (days : p.R) (fuel id : ℕ) (w : World p)
      → Holds (λ w'. requested w'.scene.gl ≡ requested w.scene.gl) (draw_traversal days fuel id w)
  draw_traversal_quiet days fuel id w =
      draw_traversal-Holds (λ s. requested s.gl ≡ requested w.scene.gl)
        (record {
          started = λ s h. requested-get_instance s.gl ∙ h;
          shown = λ days world id n s found h.
              Holds-map (λ (r : Node p × Scene p). requested r.1.gl ≡ requested s.gl)
                (λ r. requested r.1.gl ≡ requested w.scene.gl) (show days world id n s)
                (show_quiet days world id n s) λ r k. k ∙ h;
        })
        days fuel id w refl
