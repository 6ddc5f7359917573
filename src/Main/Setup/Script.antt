-- ===== src/Main/Setup/Script.antt =====
-- Statements of the script that keep a property of the scene.
pub mod Program
use fhmuenster.Base.{
  ℕ, zero, suc, ◌<◌, ◌≡◌, refl, Option, none, some, List, [], ◌∷◌, ◌++◌, arith, length, get_elem?,
  set, All, All-append, All-get_elem?, All-set, inl, inr, Option-cases,
}
use fhmuenster.Platform.{Platform, Vec4}
use fhmuenster.WebGl.{Gl}
use fhmuenster.Camera.{new_camera, at_rest}
use fhmuenster.Orbit.{new_orbit}
use fhmuenster.Planet.{new_planet}
use fhmuenster.Material.{Material, new_material}
use fhmuenster.Light.{new_light}
use fhmuenster.Texture.{new_texture_node}
use fhmuenster.Sphere.{new_sphere}
use fhmuenster.CubeNode.{new_cube_node}
use fhmuenster.SgNode.{
  Kind, Node, Scene, new_node, add_child, push_child, camera, orbit, planet, light, material,
  texture, sphere, cube,
}
use fhmuenster.Scenegraph.Motions.{Motions, SoundSpeeds, SoundKind, IsSound}
use fhmuenster.Main.Setup.{
  Build, Palette, Bodies, Body, ◌>>=◌, ◌>>◌, pure, create, create_with, edge, set_material,
  make_planet, make_orbit, make_sphere, make_cube, make_material, make_palette, make_body,
  make_bodies, join_nodes, make_scene,
}

-- The nodes that move: the camera, the orbits and the planets.
abbrev pub IsMoving : {p : Platform} → Kind p → Type 0
IsMoving (camera c) = Unit
IsMoving (orbit o) = Unit
IsMoving (planet o) = Unit
IsMoving k = ⊥

-- What does not hang on a node's children holds after `addChild`.
pub push_child-All :
    {p : Platform} (Q : Node p → Type 0)
    → ((n : Node p) (cs : List ℕ) → Q n → Q (record n { children = cs }))
    → (parent child : ℕ) (nodes : List (Node p)) → All Q nodes
    → All Q (push_child parent (get_elem? nodes parent) child nodes)
push_child-All Q same parent child nodes h = elim (Option-cases (get_elem? nodes parent)) [
  | inl missing ↦ rw missing h
  | inr (n, found) ↦ rw found (
      All-set Q nodes parent _ h
        (same n (n.children ++ (child ∷ [])) (All-get_elem? Q nodes parent h found)))
]

module _ {p : Platform} (P : Scene p → Type 0) where
  pub record Keeps {A : Type 0} (m : Build p A) : Type 0 where
    pub kept : (s : Scene p) → P s → P (m s).1

  pub bind-Keeps :
      {A B : Type 0} (m : Build p A) (f : A → Build p B)
      → Keeps m
      → ((a : A) → Keeps (f a))
      → Keeps (m >>= f)
  unfolding ◌>>=◌
  bind-Keeps m f h k = record { kept = λ s here. (k (m s).0).kept (m s).1 (h.kept s here) }

  pub then-Keeps :
      {B : Type 0} (m : Build p (Unit {0})) (k : Build p B) → Keeps m → Keeps k → Keeps (m >> k)
  unfolding ◌>>◌
  then-Keeps m k h h' = bind-Keeps m (λ _. k) h (λ _. h')

  pub pure-Keeps : {A : Type 0} (a : A) → Keeps (pure a)
  unfolding pure
  pure-Keeps a = record { kept = λ s here. here }

  -- What a property must keep for the whole script to keep it: the edges and the constructors of
  -- the nodes, on numbers and matrices of a set.
  pub record KeepsNodes (L : Motions p) : Type 0 where
    pub edges : (parent child : ℕ) → Keeps (edge parent child)
    pub moving :
        (k : Kind p) (t : p.Mat4) → IsMoving k → L.IsMotion t → SoundKind L k → Keeps (create k t)
    pub lights : (a b c d : Vec4 p.R) → Keeps (create_with light (new_light a b c d))
    pub materials : (m : Material p) → Keeps (create_with material (new_material m))
    pub textures : (src : ℕ) → Keeps (create_with texture (new_texture_node src))
    pub spheres : (radius : p.R) → Keeps (create_with sphere (new_sphere radius))
    pub cubes : (h w d : p.R) → Keeps (create_with cube (new_cube_node h w d))

module _ {p : Platform} {L : Motions p} {P : Scene p → Type 0} (K : KeepsNodes P L) where
  open p use {R, of_ℕ, decimal}
  open L use {IsNumber, IsNonZero}

  pub set_material-Keeps : (planet' material' : ℕ) → Keeps P (set_material planet' material')
  unfolding set_material
  set_material-Keeps planet' material' = K.edges planet' material'

  pub make_planet-Keeps :
      (tilt period : R) (mat tex : ℕ)
      → IsNumber tilt
      → IsNumber period
      → IsNonZero period
      → Keeps P (make_planet tilt period mat tex)
  unfolding make_planet new_planet
  make_planet-Keeps tilt period mat tex t n z =
      let tilted =
        L.div_number _ _ (L.mul_number _ _ t L.pi_number) (L.of_ℕ_number 180)
          (L.of_ℕ_non_zero 180 (omega arith)) in
      let made = new_planet p tilt period in
      let sound : SoundKind L (planet made.0) = (n, z) in
      bind-Keeps P _ _
        (K.moving (planet made.0) made.1 tt (L.rotate_z_motion _ _ L.create_motion tilted) sound)
        λ id. then-Keeps P _ _ (K.edges id mat) (
          bind-Keeps P _ _ (K.textures tex)
            λ t'. then-Keeps P _ _ (K.edges id t') (pure-Keeps P id))

  pub make_orbit-Keeps :
      (radius tilt period : R)
      → IsNumber radius
      → IsNumber tilt
      → IsNumber period
      → Keeps P (make_orbit radius tilt period)
  unfolding make_orbit new_orbit
  make_orbit-Keeps radius tilt period r t n =
      let tilted =
        L.mul_number _ _ t
          (L.div_number _ _ L.pi_number (L.of_ℕ_number 180) (L.of_ℕ_non_zero 180 (omega arith))) in
      K.moving _ _ tt
        (L.translate_motion _ _ _ _ (L.rotate_z_motion _ _ L.create_motion tilted) r
          (L.of_ℕ_number 0) (L.of_ℕ_number 0))
        (r, n)

infixr 4 ◌also◌
-- Two statements in sequence.
pub ◌also◌ :
    {p : Platform} {P : Scene p → Type 0} {B : Type 0} {m : Build p (Unit {0})} {k : Build p B}
    → Keeps P m
    → Keeps P k
    → Keeps P (m >> k)
h also k = then-Keeps _ _ _ h k

infixr 4 ◌then◌
-- A statement whose result the next one uses.
pub ◌then◌ :
    {p : Platform} {P : Scene p → Type 0} {A B : Type 0} {m : Build p A} {f : A → Build p B}
    → Keeps P m
    → ((a : A) → Keeps P (f a))
    → Keeps P (m >>= f)
h then k = bind-Keeps _ _ _ h k
