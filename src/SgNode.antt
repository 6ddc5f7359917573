-- ===== src/SgNode.antt =====
-- Computergrafik/src/szenegraph/sgnode.ts: `class SGNode`, with the classes that extend it as the
-- kinds of a node. A node is named by the number of nodes created before it; `component.ts`'s
-- `Component` draws nothing on the canvas and is the kind `component`.
use Prim.Native.String.{String}
use fhmuenster.Base.{ℕ, Option, none, some, List, [], ◌∷◌, ◌++◌, get_elem?, set}
use fhmuenster.Platform.{Platform}
use fhmuenster.WebGl.{Gl}
use fhmuenster.Camera
use fhmuenster.Camera.{Camera}
use fhmuenster.Orbit
use fhmuenster.Orbit.{Orbit}
use fhmuenster.Planet
use fhmuenster.Planet.{Planet}
use fhmuenster.Light
use fhmuenster.Light.{Light}
use fhmuenster.Material
use fhmuenster.Material.{Material}
use fhmuenster.Texture
use fhmuenster.Texture.{Texture}
use fhmuenster.Sphere
use fhmuenster.Sphere.{Sphere}
use fhmuenster.CubeNode
use fhmuenster.CubeNode.{CubeNode}

pub data Kind (p : Platform) : Type 0 where
  plain : Kind p
  component : String → Kind p
  camera : Camera p → Kind p
  orbit : Orbit p → Kind p
  planet : Planet p → Kind p
  light : Light p → Kind p
  material : Material p → Kind p
  texture : Texture → Kind p
  sphere : Sphere p → Kind p
  cube : CubeNode p → Kind p

pub record Node (p : Platform) : Type 0 where
  pub trafo : p.Mat4
  pub children : List ℕ
  pub kind : Kind p

-- All nodes, and the rendering context.
pub record Scene (p : Platform) : Type 0 where
  pub nodes : List (Node p)
  pub gl : Gl p

module _ {p : Platform} where
  -- `new`: the node is `length s.nodes`.
  abbrev pub new_node : Kind p → p.Mat4 → Scene p → Scene p
  new_node kind trafo s = record s {
    nodes = s.nodes ++ (record { trafo = trafo; children = []; kind = kind } ∷ []);
  }

  abbrev pub push_child : ℕ → Option (Node p) → ℕ → List (Node p) → List (Node p)
  push_child parent none child nodes = nodes
  push_child parent (some n) child nodes =
      set nodes parent (record n { children = n.children ++ (child ∷ []) })

  unfoldable pub add_child : (parent child : ℕ) → Scene p → Scene p
  add_child parent child s = record s {
    nodes = push_child parent (get_elem? s.nodes parent) child s.nodes;
  }

  abbrev pub drawn_camera : p.Mat4 → Option (Camera p × Gl p) → Option (Kind p × p.Mat4 × Gl p)
  drawn_camera trafo none = none
  drawn_camera trafo (some (c, g)) = some (camera c, trafo, g)

  -- `node.draw(days)`: the node's own state and matrix after it; `none` is an exception.
  unfoldable pub draw_kind : p.R → Kind p → p.Mat4 → Gl p → Option (Kind p × p.Mat4 × Gl p)
  unfolding Orbit.draw Planet.draw
  draw_kind days plain trafo g = some (plain, trafo, g)
  draw_kind days (component name) trafo g = some (component name, trafo, g)
  draw_kind days (camera c) trafo g = drawn_camera trafo (Camera.draw c g)
  draw_kind days (orbit o) trafo g = some (orbit o, Orbit.draw p o days trafo, g)
  draw_kind days (planet o) trafo g = some (planet o, Planet.draw p o days trafo, g)
  draw_kind days (light l) trafo g = some (light l, trafo, Light.draw l g)
  draw_kind days (material m) trafo g = some (material m, trafo, Material.draw m g)
  draw_kind days (texture t) trafo g = some (texture t, trafo, Texture.draw t g)
  draw_kind days (sphere s) trafo g = some (sphere s, trafo, Sphere.draw s g)
  draw_kind days (cube c) trafo g = let (c', g') = CubeNode.draw c g in some (cube c', trafo, g')

  -- `if (node instanceof Light) node.updatePosition(trafo)`.
  unfoldable pub update_light : p.Mat4 → Kind p → Kind p
  update_light world (light l) = light (Light.update_position world l)
  update_light world k = k
