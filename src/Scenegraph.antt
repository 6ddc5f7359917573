-- ===== src/Scenegraph.antt =====
-- Computergrafik/src/szenegraph/scenegraph.ts: `class Scenegraph`. `drawTraversal` takes fuel for
-- the depth of its recursion. An exception is not caught anywhere: it ends the frame loop, and its
-- result carries no state.
pub mod Recursion
pub mod Motions
pub mod Depth
pub mod Shading
pub mod Holds
pub mod Requests
pub mod Painting
pub mod Supply
use fhmuenster.Base.{ℕ, zero, suc, Option, none, some, List, [], ◌∷◌, get_elem?, set}
use fhmuenster.Platform.{Platform}
use fhmuenster.WebGl.{Gl, ◌▷◌, uniform_matrix4, uniform_matrix3, model_view_matrix, normal_matrix}
use fhmuenster.WebGlStart.{get_instance}
use fhmuenster.MatrixStack.{Matrices, push, pop, write}
use fhmuenster.SgNode.{Kind, Node, Scene, draw_kind, update_light}

-- A TypeError, or the RangeError of a recursion that is too deep.
pub data Exception : Type 0 where
  type_error range_error : Exception

pub data Result (A : Type 0) : Type 0 where
  ok : A → Result A
  throw : Exception → Result A

infixl 5 ◌>>=◌
abbrev pub ◌>>=◌ : {A B : Type 0} → Result A → (A → Result B) → Result B
ok a >>= f = f a
throw e >>= f = throw e

abbrev pub or_throw : {A : Type 0} → Option A → Result A
or_throw none = throw type_error
or_throw (some a) = ok a

pub record World (p : Platform) : Type 0 where
  pub scene : Scene p
  pub matrices : Matrices p.Mat4

-- `trafo = pop(); push(trafo); mat4.mul(trafo, trafo, node.getTrafo()); push(trafo)`, with the
-- reference `trafo`.
unfoldable pub enter : (p : Platform) → p.Mat4 → Matrices p.Mat4 → Option (ℕ × Matrices p.Mat4)
enter p node_trafo m = elim (pop m) [
  | none ↦ none
  | some (trafo, m1) ↦
      let m2 = push (m1.cell trafo) m1 in
      let m3 = write trafo (p.multiply (m2.cell trafo) node_trafo) m2 in
      some (trafo, push (m3.cell trafo) m3)
]

-- `for (let child of node.getChildren())`.
unfoldable pub draw_children : {S : Type 0} → (ℕ → S → Result S) → List ℕ → S → Result S
draw_children draw [] s = ok s
draw_children draw (c ∷ cs) s = draw c s >>= draw_children draw cs

-- The constructor's `new MatrixStack()` with `push(rootNode.getTrafo())`.
unfoldable pub new_stack : (p : Platform) → p.Mat4 → Matrices p.Mat4
new_stack p root_trafo = push root_trafo (record { next = 0; cell = λ _. p.create; items = [] })

module _ {p : Platform} where
  -- The node in its place, with the state and the matrix that its `draw` left.
  abbrev pub put_back : ℕ → Node p → Scene p → Kind p × p.Mat4 × Gl p → Node p × Scene p
  put_back id node s (kind, trafo, g) =
      let node' = record node { kind = kind; trafo = trafo } in
      (node', record { nodes = set s.nodes id node'; gl = g })

  -- The two uniforms, `updatePosition` and `node.draw` for a node whose matrix in the world is
  -- `world`; the node is changed in place. A singular matrix has no normal matrix, and
  -- `uniformMatrix3fv` throws at `null`.
  unfoldable pub show : p.R → p.Mat4 → ℕ → Node p → Scene p → Result (Node p × Scene p)
  show days world id node s = do
    normal ← or_throw (p.normal_from_mat4 world)
    let g = s.gl ▷ uniform_matrix4 model_view_matrix world ▷ uniform_matrix3 normal_matrix normal
    drawn ← or_throw (draw_kind days (update_light world node.kind) node.trafo g)
    ok (put_back id node s drawn)

  unfoldable pub draw_traversal : p.R → ℕ → ℕ → World p → Result (World p)
  draw_traversal days zero id w = throw range_error
  draw_traversal days (suc fuel) id w = do
    node ← or_throw (get_elem? w.scene.nodes id)
    let scene = record w.scene { gl = get_instance w.scene.gl }
    (trafo, matrices) ← or_throw (enter p node.trafo w.matrices)
    (node', shown) ← show days (matrices.cell trafo) id node scene
    drawn ←
        draw_children (draw_traversal days fuel) node'.children
          (record { scene = shown; matrices = matrices })
    (_, popped) ← or_throw (pop drawn.matrices)
    ok (record drawn { matrices = popped })

  -- `draw(days)`.
  unfoldable pub draw : (fuel : ℕ) (root : ℕ) → p.R → World p → Result (World p)
  draw fuel root days w = draw_traversal days fuel root w
