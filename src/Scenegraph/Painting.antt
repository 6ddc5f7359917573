-- ===== src/Scenegraph/Painting.antt =====
-- Where and in which paint a traversal draws, as a walk over the graph that forgets all but the
-- matrices, the materials, the textures, the light and the draw calls.
pub mod Walk
use mathlib.Core.Option.{map as map_option}
use fhmuenster.Base.{
  length, ◌+◌, ℕ, zero, suc, ◌≡◌, refl, ◌∙◌, ap, inl, inr, Option, none, some, List, [], ◌∷◌,
}
use fhmuenster.Platform.{Platform, Vec4}
use fhmuenster.WebGl.{Gl}
use fhmuenster.WebGl.Paint.{
  Effect, shine_of, canvas, effect, effect-get_instance, canvas-get_instance,
}
use fhmuenster.WebGlStart.{get_instance}
use fhmuenster.Camera
use fhmuenster.Camera.{Camera, moved, with_view}
use fhmuenster.Orbit
use fhmuenster.Orbit.{Orbit}
use fhmuenster.Planet
use fhmuenster.Planet.{Planet}
use fhmuenster.Light
use fhmuenster.Light.{Light}
use fhmuenster.Material
use fhmuenster.Material.{Material}
use fhmuenster.Texture
use fhmuenster.Sphere
use fhmuenster.Sphere.{bind_buffers}
use fhmuenster.Square
use fhmuenster.Square.{Square}
use fhmuenster.Triangle
use fhmuenster.CubeNode
use fhmuenster.CubeNode.{draw_squares, bind_tex}
use fhmuenster.SgNode.{
  Kind, draw_kind, drawn_camera, update_light, plain, component, camera, orbit, planet, light,
  material, texture, sphere, cube,
}

-- What a node does to its own matrix or to the paint: its turn on an orbit or about its axis, its
-- material, texture or light, or its draw calls.
pub data Tag (p : Platform) : Type 0 where
  bare : Tag p
  views : Camera p → Tag p
  turns : Orbit p → Tag p
  spins : Planet p → Tag p
  coat : Material p → Tag p
  wrap : ℕ → Tag p
  lamp : Light p → Tag p
  ball : Tag p
  box : (squares : ℕ) → Tag p

module _ {p : Platform} where
  abbrev pub tag : Kind p → Tag p
  tag (camera c) = views c
  tag (orbit o) = turns o
  tag (planet o) = spins o
  tag (material m) = coat m
  tag (texture t) = wrap t.texture
  tag (light l) = lamp l
  tag (sphere s) = ball
  tag (cube c) = box (length c.squares)
  tag k = bare

  abbrev pub called : Effect p → Effect p
  called e = record e { drawn = e.now ∷ e.drawn }

  abbrev pub stored : Effect p → Effect p
  stored e = record e { buffers = e.buffers + 1 }

  -- Two draw calls for each square, each with a new buffer.
  abbrev pub boxes : (squares : ℕ) → Effect p → Effect p
  boxes zero e = e
  boxes (suc n) e = boxes n (called (stored (called (stored e))))

  abbrev pub lens : (size : p.R × p.R) → Camera p → p.Mat4
  lens size c =
      p.perspective (p.rem c.fov_radian p.pi) (p.div size.0 size.1) (p.of_ℕ 1) (p.of_ℕ 1000)

  -- The camera as its `draw` leaves it, on a canvas of these sides: moved by its speeds, with the
  -- lens times the inverse of its matrix for the projection.
  abbrev pub shot : (size : p.R × p.R) → Camera p → Camera p
  shot size c = record c {
    projection = map_option (p.multiply (lens size c)) (p.invert (moved c));
    camera_matrix = moved c;
  }

  abbrev pub step : Tag p → Effect p → Effect p
  step bare e = e
  step (views c) e = record e { now = record (e.now) { projection = (shot e.size c).projection } }
  step (turns o) e = e
  step (spins o) e = e
  step (coat m) e = record e {
    now = record (e.now) {
      emission = some m.emission;
      ambient = some m.ambient;
      diffuse = some m.diffuse;
      specular = some m.specular;
      shininess = some m.shininess;
    };
  }
  step (wrap t) e = record e { now = record (e.now) { texture = some t; image = e.images t } }
  step (lamp l) e = record e { now = record (e.now) { light = shine_of l } }
  step ball e = called e
  step (box n) e = boxes n e

  -- The node's own state after its `draw`.
  abbrev pub next : p.R × p.R → Tag p → Tag p
  next size (views c) = views (shot size c)
  next size t = t

  -- The node's own matrix after its `draw`.
  abbrev pub advance : p.R → Tag p → p.Mat4 → p.Mat4
  advance days (turns o) trafo = Orbit.draw p o days trafo
  advance days (spins o) trafo = Planet.draw p o days trafo
  advance days t trafo = trafo

  effect-draw_square : (s : Square p) (g : Gl p) → effect (Square.draw s g).1 ≡ boxes 1 (effect g)
  unfolding Square.draw Square.draw_half Square.init_buffer Square.bind_buffer Triangle.draw
  effect-draw_square s g =
      ap called (effect-get_instance _)
      ∙ ap (λ e. called (stored e)) (effect-get_instance _)
      ∙ ap (λ e. called (stored (called e))) (effect-get_instance _)
      ∙ ap (boxes 1) (effect-get_instance g)

  effect-draw_squares :
      (ss : List (Square p)) (g : Gl p)
      → (effect (draw_squares ss g).1 ≡ boxes (length ss) (effect g))
        × (length (draw_squares ss g).0 ≡ length ss)
  unfolding draw_squares
  effect-draw_squares [] g = (refl, refl)
  effect-draw_squares (s ∷ ss) g =
      let (e, h) = effect-draw_squares ss (Square.draw s g).1 in
      (e ∙ ap (boxes (length ss)) (effect-draw_square s g), ap suc h)

  -- What `node.draw` leaves: the paint, the tag and the matrix that the tag says.
  abbrev pub Paints : Tag p → p.Mat4 → Effect p → Option (Kind p × p.Mat4 × Gl p) → Type 0
  Paints t m e none = Unit
  Paints t m e (some (k, m', g)) = (effect g ≡ step t e) × (tag k ≡ next e.size t) × (m' ≡ m)

  with_view-Paints :
      (c : Camera p) (t lens' : p.Mat4) (g : Gl p) (o : Option p.Mat4)
      → lens' ≡ lens (canvas g) c
      → p.invert (moved c) ≡ o
      → Paints
          (views c)
          t
          (effect g)
          (drawn_camera t (with_view lens' (moved c) c (get_instance g) o))
  with_view-Paints c t lens' g none same e = tt
  with_view-Paints c t lens' g (some view) same e = rw e (
    ap
        (λ (x : p.Mat4 × Effect p). record x.1 {
          now = record (x.1.now) { projection = some (p.multiply x.0 view) };
        })
        (λ i. (same i, effect-get_instance g i)),
    ap (λ l. views (record c { projection = some (p.multiply l view); camera_matrix = moved c }))
        same,
    refl,
  )

  draw_camera-Paints :
      (c : Camera p) (t : p.Mat4) (g : Gl p)
      → Paints (views c) t (effect g) (drawn_camera t (Camera.draw c g))
  unfolding Camera.draw
  draw_camera-Paints c t g =
      with_view-Paints c t _ g (p.invert (moved c)) (ap (λ s. lens s c) (canvas-get_instance g))
        refl

  pub draw_kind-Paints :
      (days : p.R) (k : Kind p) (t : p.Mat4) (g : Gl p)
      → Paints (tag k) (advance days (tag k) t) (effect g) (draw_kind days k t g)
  unfolding draw_kind Light.draw Material.draw Texture.draw Sphere.draw bind_buffers CubeNode.draw
      bind_tex
  draw_kind-Paints days plain t g = (refl, refl, refl)
  draw_kind-Paints days (component name) t g = (refl, refl, refl)
  draw_kind-Paints days (camera c) t g = draw_camera-Paints c t g
  draw_kind-Paints days (orbit o) t g = (refl, refl, refl)
  draw_kind-Paints days (planet o) t g = (refl, refl, refl)
  draw_kind-Paints days (light l) t g = (ap (step (lamp l)) (effect-get_instance g), refl, refl)
  draw_kind-Paints days (material m) t g = (ap (step (coat m)) (effect-get_instance g), refl, refl)
  draw_kind-Paints days (texture x) t g =
      (ap (step (wrap x.texture)) (effect-get_instance g), refl, refl)
  draw_kind-Paints days (sphere s) t g =
      (ap called (effect-get_instance _ ∙ effect-get_instance g), refl, refl)
  draw_kind-Paints days (cube c) t g =
      let (e, h) = effect-draw_squares c.squares (bind_tex c g) in
      (e ∙ ap (boxes (length c.squares)) (effect-get_instance g), ap box h, refl)

  -- `updatePosition` of a light, before its `draw`.
  abbrev pub meet : (world : p.Mat4) → Tag p → Tag p
  meet world (lamp l) = lamp (Light.update_position world l)
  meet world t = t

  pub update_light-tag :
      (world : p.Mat4) (k : Kind p) → tag (update_light world k) ≡ meet world (tag k)
  unfolding update_light
  update_light-tag world (light l) = refl
  update_light-tag world plain = refl
  update_light-tag world (component name) = refl
  update_light-tag world (camera c) = refl
  update_light-tag world (orbit o) = refl
  update_light-tag world (planet o) = refl
  update_light-tag world (material m) = refl
  update_light-tag world (texture x) = refl
  update_light-tag world (sphere s) = refl
  update_light-tag world (cube c) = refl
