-- ===== src/Main/Setup/Painting.antt =====
-- The solar system as a walk sees it: the matrices, the materials, the textures and the bodies in
-- the graph.
use mathlib.Core.Path.{fun_ext}
use fhmuenster.Base.{
  Option, ℕ, zero, suc, arith, ◌+◌, ◌≡◌, ◌∙◌, refl, ap, Bool, true, false, List, [], ◌∷◌, ◌++◌,
  if◌then◌else◌,
}
use fhmuenster.Platform.{Platform}
use fhmuenster.WebGl.{Gl, ◌▷◌, alert}
use fhmuenster.WebGlStart.{
  get_instance, start, webgl_start_example, init_shaders, create_shaders, report_link,
}
use fhmuenster.SgNode.{add_child}
use fhmuenster.Camera.{Camera, new_camera}
use fhmuenster.WebGl.Bindings.{image_of}
use fhmuenster.WebGl.Paint.{canvas}
use fhmuenster.Light.{Light, new_light}
use fhmuenster.Material.{new_material}
use fhmuenster.Texture.{new_texture_node}
use fhmuenster.Sphere
use fhmuenster.Sphere.{new_sphere}
use fhmuenster.Triangle
use fhmuenster.Triangle.{new_triangle}
use fhmuenster.Square
use fhmuenster.Square.{new_square}
use fhmuenster.CubeNode.{new_cube_node}
use fhmuenster.Scenegraph.Painting.{Tag, views, turns, spins, lamp, coat, wrap, ball, box}
use fhmuenster.Scenegraph.Painting.Walk.{Sight, sights}
use fhmuenster.Main.Setup.Courses
use fhmuenster.Main.Setup.Courses.{Course, orbit_at, planet_at}
use fhmuenster.Main.Setup.{
  ◌>>=◌, ◌>>◌, pure, create, create_with, edge, set_material, make_scene, sun_material,
  mars_material, earth_material, moon_material, silver,
}

-- The number that comes `i` after `n`.
unfoldable pub counted : (n i : ℕ) → ℕ
counted n zero = n
counted n (suc i) = counted n i + 1

pub counted-eq : (n i : ℕ) → counted n i ≡ n + i
unfolding counted
counted-eq n zero = omega arith
counted-eq n (suc i) = let h = counted-eq n i in omega arith

pub alert_textures :
    {p : Platform} (linked : Bool) (g : Gl p)
    → (if linked then g else g ▷ alert).textures ≡ g.textures
alert_textures true g = refl
alert_textures false g = refl

alert_images :
    {p : Platform} (linked : Bool) (g : Gl p)
    → Path
        (ℕ → Option ℕ)
        (λ t. image_of t (if linked then g else g ▷ alert).log)
        (λ t. image_of t g.log)
alert_images true g = refl
alert_images false g = refl

module _ (p : Platform) where
  -- A node that no frame moves.
  abbrev still : List ℕ → Tag p → Sight p
  still children tag = record { children = children; tag = tag; trafo = p.create }

  -- The nodes of a body: the planet, its texture, the mesh, and the orbit.
  abbrev group :
      Course p
      → (planet mesh orbit : List ℕ) (t : ℕ) (mesh_tag : Tag p) (days : List p.R) → List (Sight p)
  group c planet mesh orbit t mesh_tag days =
      record { children = planet; tag = spins c.planet.0; trafo = planet_at c.planet days }
      ∷ still [] (wrap t)
      ∷ still mesh mesh_tag
      ∷ record { children = orbit; tag = turns c.orbit.0; trafo = orbit_at c.orbit days }
      ∷ []

  -- The script's light.
  abbrev pub lamp_of : Gl p → Light p
  lamp_of g =
      let white = p.vec4 (p.of_ℕ 1) (p.of_ℕ 1) (p.of_ℕ 1) (p.of_ℕ 1) in
      (new_light (p.vec4 (p.of_ℕ 0) (p.of_ℕ 0) (p.of_ℕ 0) (p.of_ℕ 1)) white white white g).0

  -- All nodes in the order of their creation, with this camera and light, after the frames that drew for `days`, where `t`
  -- numbers the textures.
  abbrev pub solar_sights :
      (t : ℕ → ℕ) (eye : Camera p) (l : Light p) (days : List p.R) → List (Sight p)
  solar_sights t eye l days =
      still [] (lamp l)
      ∷ still [] (coat (sun_material p))
      ∷ still [] (coat (mars_material p))
      ∷ still [] (coat (earth_material p))
      ∷ still [] (coat (moon_material p))
      ∷ still [] (coat (silver p))
      ∷ still (10 ∷ []) (views eye)
      ∷ (group (Courses.sun p) (1 ∷ 8 ∷ 1 ∷ 9 ∷ []) (0 ∷ [])
            (7 ∷ 14 ∷ 18 ∷ 26 ∷ 30 ∷ 42 ∷ 46 ∷ 34 ∷ 38 ∷ []) (t 0) ball days
          ++ group (Courses.earth p) (3 ∷ 12 ∷ 3 ∷ 13 ∷ []) [] (11 ∷ 22 ∷ []) (t 1) ball days
          ++ group (Courses.mars p) (4 ∷ 16 ∷ 2 ∷ 17 ∷ []) [] (15 ∷ []) (t 2) ball days
          ++ group (Courses.moon p) (4 ∷ 20 ∷ 4 ∷ 21 ∷ []) [] (19 ∷ []) (t 3) (box 6) days
          ++ group (Courses.neptune p) (4 ∷ 24 ∷ 25 ∷ []) [] (23 ∷ []) (t 4) ball days
          ++ group (Courses.uranus p) (4 ∷ 28 ∷ 29 ∷ []) [] (27 ∷ []) (t 5) ball days
          ++ group (Courses.saturn p) (4 ∷ 32 ∷ 33 ∷ []) [] (31 ∷ []) (t 6) ball days
          ++ group (Courses.jupiter p) (4 ∷ 36 ∷ 37 ∷ []) [] (35 ∷ []) (t 7) ball days
          ++ group (Courses.venus p) (4 ∷ 40 ∷ 41 ∷ []) [] (39 ∷ []) (t 8) ball days
          ++ group (Courses.mercury p) (5 ∷ 44 ∷ 45 ∷ []) [] (43 ∷ []) (t 9) ball days)

  by_start :
      (started : Bool) (g : Gl p)
      → sights (make_scene p (record { nodes = []; gl = record g { started = started } })).1
        ≡ solar_sights (counted g.textures) (new_camera p) (lamp_of g) []
  unfolding counted make_scene add_child ◌>>=◌ ◌>>◌ pure create create_with edge set_material
      new_light new_material new_texture_node new_sphere new_cube_node new_square new_triangle
      Sphere.init_buffers Triangle.init_buffers Square.init_buffer get_instance start
      webgl_start_example init_shaders create_shaders report_link
  by_start true g = refl
  by_start false g =
      ap (λ n. solar_sights (counted n) (new_camera p) (lamp_of g) []) (alert_textures p.links _)

  pub make_scene-sights :
      (g : Gl p)
      → sights (make_scene p (record { nodes = []; gl = g })).1
        ≡ solar_sights (λ i. g.textures + i) (new_camera p) (lamp_of g) []
  make_scene-sights g =
      by_start g.started g
      ∙ ap (λ t. solar_sights t (new_camera p) (lamp_of g) []) (fun_ext (counted-eq g.textures))

  canvas_by_start :
      (started : Bool) (g : Gl p)
      → let g0 : Gl p = record g { started = started } in
        canvas (make_scene p (record { nodes = []; gl = g0 })).1.gl ≡ canvas g0
  unfolding make_scene add_child ◌>>=◌ ◌>>◌ pure create create_with edge set_material new_light
      new_material new_texture_node new_sphere new_cube_node new_square new_triangle
      Sphere.init_buffers Triangle.init_buffers Square.init_buffer get_instance start
      webgl_start_example init_shaders create_shaders report_link
  canvas_by_start true g = refl
  canvas_by_start false g = refl

  pub make_scene-canvas :
      (g : Gl p) → canvas (make_scene p (record { nodes = []; gl = g })).1.gl ≡ canvas g
  make_scene-canvas g = canvas_by_start g.started g

  images_by_start :
      (started : Bool) (g : Gl p)
      → let g0 : Gl p = record g { started = started } in
        Path
          (ℕ → Option ℕ)
          (λ t. image_of t (make_scene p (record { nodes = []; gl = g0 })).1.gl.log)
          (λ t. image_of t g.log)
  unfolding make_scene add_child ◌>>=◌ ◌>>◌ pure create create_with edge set_material new_light
      new_material new_texture_node new_sphere new_cube_node new_square new_triangle
      Sphere.init_buffers Triangle.init_buffers Square.init_buffer get_instance start
      webgl_start_example init_shaders create_shaders report_link
  images_by_start true g = refl
  images_by_start false g = alert_images p.links _

  -- The script loads no image.
  pub make_scene-images :
      (g : Gl p)
      → Path
          (ℕ → Option ℕ)
          (λ t. image_of t (make_scene p (record { nodes = []; gl = g })).1.gl.log)
          (λ t. image_of t g.log)
  make_scene-images g = images_by_start g.started g
