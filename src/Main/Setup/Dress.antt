-- ===== src/Main/Setup/Dress.antt =====
-- Which image file each planet of the script in Computergrafik/src/szenegraph/index.ts is given.
use mathlib.Core.Path.{fun_ext}
use fhmuenster.Base.{
  ℕ, ◌+◌, ◌≡◌, ◌∙◌, refl, ap, true, false, Option, none, some, Bool, List, [], ◌∷◌, ◌++◌, get_elem?,
  map,
}
use fhmuenster.Platform.{Platform}
use fhmuenster.WebGl.{Gl}
use fhmuenster.WebGlStart.{
  get_instance, start, webgl_start_example, init_shaders, create_shaders, report_link,
}
use fhmuenster.SgNode.{add_child, Kind, Node, planet, texture}
use fhmuenster.Light.{new_light}
use fhmuenster.Material.{new_material}
use fhmuenster.Planet.{Planet}
use fhmuenster.Texture.{Texture, new_texture_node}
use fhmuenster.Sphere
use fhmuenster.Sphere.{new_sphere}
use fhmuenster.Triangle
use fhmuenster.Triangle.{new_triangle}
use fhmuenster.Square
use fhmuenster.Square.{new_square}
use fhmuenster.CubeNode.{new_cube_node}
use fhmuenster.Main.Setup.Courses
use fhmuenster.Main.Setup.Painting.{counted, counted-eq, alert_textures}
use fhmuenster.Main.Setup.{◌>>=◌, ◌>>◌, pure, create, create_with, edge, set_material, make_scene}
use fhmuenster.Main.Setup.Images.{
  sun_tex, earth_tex, mars_tex, jupiter_tex, mercury_tex, neptune_tex, saturn_tex, uranus_tex,
  venus_tex, borg,
}

module _ {p : Platform} where
  abbrev texture_of : Kind p → List Texture
  texture_of (texture t) = t ∷ []
  texture_of _ = []

  abbrev texture_at : Option (Node p) → List Texture
  texture_at none = []
  texture_at (some n) = texture_of n.kind

  -- The textures among the children of a node.
  abbrev textures_below : List (Node p) → List ℕ → List Texture
  textures_below nodes [] = []
  textures_below nodes (id ∷ ids) = texture_at (get_elem? nodes id) ++ textures_below nodes ids

  abbrev planet_of : Kind p → List Texture → List (Planet p × List Texture)
  planet_of (planet q) ts = (q, ts) ∷ []
  planet_of _ ts = []

  -- The planets among these nodes of a graph, in the order of their creation, each with the textures
  -- among its children.
  abbrev pub dressed : (nodes some_of : List (Node p)) → List (Planet p × List Texture)
  dressed nodes [] = []
  dressed nodes (n ∷ ns) = planet_of n.kind (textures_below nodes n.children) ++ dressed nodes ns

-- The files of the planets, in the order in which the script creates them.
abbrev pub files : List ℕ
files =
    sun_tex ∷ earth_tex ∷ mars_tex ∷ borg ∷ neptune_tex ∷ uranus_tex ∷ saturn_tex ∷ jupiter_tex
    ∷ venus_tex ∷ mercury_tex ∷ []

module _ (p : Platform) where
  abbrev pub planets : List (Planet p)
  planets =
      map (λ (c : Courses.Course p). c.planet.0)
        (Courses.sun p
          ∷ Courses.earth p
          ∷ Courses.mars p
          ∷ Courses.moon p
          ∷ Courses.neptune p
          ∷ Courses.uranus p
          ∷ Courses.saturn p
          ∷ Courses.jupiter p
          ∷ Courses.venus p
          ∷ Courses.mercury p
          ∷ [])

  -- Each planet with one texture, where `t` numbers the textures.
  abbrev pub wrapped :
      (t : ℕ → ℕ) → (i : ℕ) → List (Planet p) → List ℕ → List (Planet p × List Texture)
  wrapped t i (q ∷ qs) (f ∷ fs) =
      (q, record { texture = t i; image = f } ∷ []) ∷ wrapped t (i + 1) qs fs
  wrapped t i _ _ = []

  by_start :
      (started : Bool) (g : Gl p)
      → let s = (make_scene p (record { nodes = []; gl = record g { started = started } })).1 in
        dressed s.nodes s.nodes ≡ wrapped (counted g.textures) 0 planets files
  unfolding counted make_scene add_child ◌>>=◌ ◌>>◌ pure create create_with edge set_material
      new_light new_material new_texture_node new_sphere new_cube_node new_square new_triangle
      Sphere.init_buffers Triangle.init_buffers Square.init_buffer get_instance start
      webgl_start_example init_shaders create_shaders report_link
  by_start true g = refl
  by_start false g = ap (λ n. wrapped (counted n) 0 planets files) (alert_textures p.links _)

  pub make_scene-dressed :
      (g : Gl p)
      → let s = (make_scene p (record { nodes = []; gl = g })).1 in
        dressed s.nodes s.nodes ≡ wrapped (λ i. g.textures + i) 0 planets files
  make_scene-dressed g =
      by_start g.started g ∙ ap (λ t. wrapped t 0 planets files) (fun_ext (counted-eq g.textures))
