-- ===== src/Main/Setup.antt =====
-- Computergrafik/src/szenegraph/index.ts up to the scene graph: every object in the order of its
-- creation, and the edges between them.
pub mod Materials
pub mod Images
pub mod Script
pub mod Sound
pub mod Supply
pub mod Requests
pub mod Courses
pub mod Dress
pub mod Painting
use fhmuenster.Base.{ℕ, length}
use fhmuenster.Platform.{Platform}
use fhmuenster.WebGl.{Gl}
use fhmuenster.Camera.{new_camera}
use fhmuenster.Orbit.{new_orbit}
use fhmuenster.Planet.{new_planet}
use fhmuenster.Light.{new_light}
use fhmuenster.Material.{Material, new_material}
pub use fhmuenster.Main.Setup.Materials.{
  sun_material, mars_material, earth_material, moon_material, silver,
}
use fhmuenster.Main.Setup.Images.{
  sun_tex, earth_tex, mars_tex, jupiter_tex, mercury_tex, neptune_tex, saturn_tex, uranus_tex,
  venus_tex, borg,
}
use fhmuenster.Texture.{new_texture_node}
use fhmuenster.Sphere.{new_sphere}
use fhmuenster.CubeNode.{new_cube_node}
use fhmuenster.SgNode.{
  Kind, Scene, new_node, add_child, camera, orbit, planet, light, material, texture, sphere, cube,
}

-- The nodes of the materials and the others that stand alone.
pub record Palette : Type 0 where
  pub light_id : ℕ
  pub sun_id : ℕ
  pub mars_id : ℕ
  pub earth_id : ℕ
  pub moon_id : ℕ
  pub silver_id : ℕ
  pub camera_id : ℕ

-- A planet with the body that it draws and the orbit that it stands on.
pub record Body : Type 0 where
  pub planet_id : ℕ
  pub body_id : ℕ
  pub orbit_id : ℕ

pub record Bodies : Type 0 where
  pub sun : Body
  pub earth : Body
  pub mars : Body
  pub moon : Body
  pub neptune : Body
  pub uranus : Body
  pub saturn : Body
  pub jupiter : Body
  pub venus : Body
  pub mercury : Body

-- Statements that create nodes: the scene passed on, with a node's number.
abbrev pub Build : Platform → Type 0 → Type 0
Build p A = Scene p → A × Scene p

module _ {p : Platform} where
  infixl 5 ◌>>=◌ ◌>>◌
  unfoldable pub ◌>>=◌ : {A B : Type 0} → Build p A → (A → Build p B) → Build p B
  ◌>>=◌ m f s = let (a, s') = m s in f a s'

  unfoldable pub ◌>>◌ : {B : Type 0} → Build p (Unit {0}) → Build p B → Build p B
  unfolding ◌>>=◌
  m >> k = m >>= λ _. k

  unfoldable pub pure : {A : Type 0} → A → Build p A
  pure a s = (a, s)

  -- A node without an effect on WebGL, and one whose constructor has it.
  unfoldable pub create : Kind p → p.Mat4 → Build p ℕ
  create k trafo s = (length s.nodes, new_node k trafo s)

  unfoldable pub create_with : {A : Type 0} → (A → Kind p) → (Gl p → A × Gl p) → Build p ℕ
  create_with kind build s =
      let (a, g) = build s.gl in (length s.nodes, new_node (kind a) p.create (record s { gl = g }))

  -- `parent.addChild(child)`.
  unfoldable pub edge : (parent child : ℕ) → Build p (Unit {0})
  edge parent child s = (tt, add_child parent child s)

  -- `planet.setMaterial(material)`.
  unfoldable pub set_material : (planet material : ℕ) → Build p (Unit {0})
  unfolding edge
  set_material planet_id material_id = edge planet_id material_id

  -- `new Planet(tilt, rotationPeriod, mat, tex)`: the node, then `addChild(mat)`, the texture and
  -- `addChild` of it.
  unfoldable pub make_planet : (tilt rotation_period : p.R) (mat tex : ℕ) → Build p ℕ
  make_planet tilt rotation_period mat tex = do
    let made = new_planet p tilt rotation_period
    id ← create (planet made.0) made.1
    edge id mat
    t ← create_with texture (new_texture_node tex)
    edge id t
    pure id

  unfoldable pub make_orbit : (radius tilt period : p.R) → Build p ℕ
  make_orbit radius tilt period =
      let made = new_orbit p radius tilt period in create (orbit made.0) made.1

  unfoldable pub make_sphere : p.R → Build p ℕ
  make_sphere radius = create_with sphere (new_sphere radius)

  unfoldable pub make_cube : (heigth width depth : p.R) → Build p ℕ
  make_cube heigth width depth = create_with cube (new_cube_node heigth width depth)

  unfoldable pub make_material : Material p → Build p ℕ
  make_material m = create_with material (new_material m)

module _ (p : Platform) where
  open p use {R, of_ℕ, decimal, mul, vec4}

  -- `light`, the five materials and `camera`.
  unfoldable pub make_palette : Build p Palette
  make_palette = do
    let one = vec4 (of_ℕ 1) (of_ℕ 1) (of_ℕ 1) (of_ℕ 1)
    l ← create_with light (new_light (vec4 (of_ℕ 0) (of_ℕ 0) (of_ℕ 0) (of_ℕ 1)) one one one)
    sun ← make_material (sun_material p)
    mars ← make_material (mars_material p)
    earth ← make_material (earth_material p)
    moon ← make_material (moon_material p)
    silver' ← make_material (silver p)
    c ← create (camera (new_camera p)) p.create
    pure (record {
      light_id = l;
      sun_id = sun;
      mars_id = mars;
      earth_id = earth;
      moon_id = moon;
      silver_id = silver';
      camera_id = c;
    })

  unfoldable pub make_body : Build p ℕ → Build p ℕ → Build p ℕ → Build p Body
  make_body make_p make_b make_o = do
    a ← make_p
    b ← make_b
    o ← make_o
    pure (record { planet_id = a; body_id = b; orbit_id = o })

  unfoldable pub make_bodies : Palette → Build p Bodies
  unfolding make_body
  make_bodies m = do
    sun ←
        make_body (make_planet (decimal 725 2) (decimal 2538 2) m.sun_id sun_tex)
          (make_sphere (of_ℕ 20)) (make_orbit (of_ℕ 0) (of_ℕ 0) (of_ℕ 0))
    earth ←
        make_body (make_planet (decimal 2345 2) (of_ℕ 1) m.earth_id earth_tex)
          (make_sphere (of_ℕ 4)) (make_orbit (of_ℕ 80) (of_ℕ 0) (of_ℕ 365))
    mars ←
        make_body (make_planet (decimal 2519 2) (decimal 103 2) m.moon_id mars_tex)
          (make_sphere (of_ℕ 2)) (make_orbit (of_ℕ 105) (of_ℕ 19) (of_ℕ 678))
    moon ←
        make_body (make_planet (decimal 154 2) (decimal 2732 2) m.moon_id borg)
          (make_cube (of_ℕ 1) (of_ℕ 1) (of_ℕ 1))
          (make_orbit (of_ℕ 6) (decimal 5145 3) (decimal 2732 2))
    neptune ←
        make_body (make_planet (decimal 2958 2) (decimal 80 2) m.moon_id neptune_tex)
          (make_sphere (of_ℕ 10)) (make_orbit (of_ℕ 450) (decimal 177 2) (of_ℕ 60_152))
    uranus ←
        make_body (make_planet (decimal 9786 2) (decimal 75 2) m.moon_id uranus_tex)
          (make_sphere (of_ℕ 11)) (make_orbit (of_ℕ 280) (decimal 77 2) (of_ℕ 30_664))
    saturn ←
        make_body (make_planet (decimal 2673 2) (decimal 43 2) m.moon_id saturn_tex)
          (make_sphere (of_ℕ 14)) (make_orbit (of_ℕ 210) (decimal 248 2) (of_ℕ 10_753))
    jupiter ←
        make_body (make_planet (decimal 312 2) (decimal 41 2) m.moon_id jupiter_tex)
          (make_sphere (of_ℕ 15)) (make_orbit (of_ℕ 130) (decimal 104 2) (of_ℕ 4329))
    venus ←
        make_body (make_planet (decimal 17_736 2) (of_ℕ 243) m.moon_id venus_tex)
          (make_sphere (of_ℕ 4)) (make_orbit (of_ℕ 60) (decimal 340 2) (of_ℕ 226))
    mercury ←
        make_body (make_planet (of_ℕ 0) (decimal 5865 2) m.silver_id mercury_tex)
          (make_sphere (of_ℕ 2)) (make_orbit (of_ℕ 40) (decimal 700 2) (of_ℕ 88))
    pure (record {
      sun = sun;
      earth = earth;
      mars = mars;
      moon = moon;
      neptune = neptune;
      uranus = uranus;
      saturn = saturn;
      jupiter = jupiter;
      venus = venus;
      mercury = mercury;
    })

  -- The four `setMaterial`, and every `addChild`.
  unfoldable pub join_nodes : Palette → Bodies → Build p (Unit {0})
  join_nodes m b = do
    set_material b.sun.planet_id m.sun_id
    set_material b.earth.planet_id m.earth_id
    set_material b.mars.planet_id m.mars_id
    set_material b.moon.planet_id m.moon_id
    edge m.camera_id b.sun.orbit_id
    edge b.sun.orbit_id b.sun.planet_id
    edge b.sun.orbit_id b.earth.orbit_id
    edge b.sun.orbit_id b.mars.orbit_id
    edge b.sun.orbit_id b.neptune.orbit_id
    edge b.sun.orbit_id b.uranus.orbit_id
    edge b.sun.orbit_id b.venus.orbit_id
    edge b.sun.orbit_id b.mercury.orbit_id
    edge b.sun.orbit_id b.saturn.orbit_id
    edge b.sun.orbit_id b.jupiter.orbit_id
    edge b.neptune.orbit_id b.neptune.planet_id
    edge b.neptune.planet_id b.neptune.body_id
    edge b.uranus.orbit_id b.uranus.planet_id
    edge b.uranus.planet_id b.uranus.body_id
    edge b.venus.orbit_id b.venus.planet_id
    edge b.venus.planet_id b.venus.body_id
    edge b.mercury.orbit_id b.mercury.planet_id
    edge b.mercury.planet_id b.mercury.body_id
    edge b.saturn.orbit_id b.saturn.planet_id
    edge b.saturn.planet_id b.saturn.body_id
    edge b.jupiter.orbit_id b.jupiter.planet_id
    edge b.jupiter.planet_id b.jupiter.body_id
    edge b.sun.planet_id b.sun.body_id
    edge b.sun.body_id m.light_id
    edge b.mars.orbit_id b.mars.planet_id
    edge b.earth.orbit_id b.earth.planet_id
    edge b.mars.planet_id b.mars.body_id
    edge b.earth.planet_id b.earth.body_id
    edge b.earth.orbit_id b.moon.orbit_id
    edge b.moon.orbit_id b.moon.planet_id
    edge b.moon.planet_id b.moon.body_id

  unfoldable pub make_scene : Build p Palette
  unfolding make_palette make_bodies join_nodes make_planet make_orbit make_sphere make_cube
      make_material
  make_scene = do m ← make_palette; b ← make_bodies m; join_nodes m b; pure m
