-- ===== src/Scenegraph/Depth.antt =====
-- The depth of `drawTraversal` on an acyclic scene graph.
pub mod Edges
pub mod Below
use mathlib.Core.Path.{subst}
use mathlib.Core.Option.{some-injective}
use fhmuenster.Base.{
  Bool, true, false, sym, ℕ, zero, suc, ◌<◌, ◌≡◌, refl, ◌∙◌, ap, ◌≢◌, Option, none, some, List, [],
  ◌∷◌, map, get_elem?, set, length, arith, All, All-get_elem?, All-set,
}
use fhmuenster.Platform.{Platform}
use fhmuenster.WebGl.{Gl, ◌▷◌, uniform_matrix4, uniform_matrix3, model_view_matrix, normal_matrix}
use fhmuenster.WebGlStart.{get_instance}
use fhmuenster.Camera
use fhmuenster.Camera.{Camera}
use fhmuenster.MatrixStack.View.{view, IsAllocated}
use fhmuenster.SgNode.{Kind, Node, Scene, draw_kind, update_light, camera, drawn_camera, light}
use fhmuenster.Scenegraph.{
  World, Result, ok, throw, type_error, range_error, ◌>>=◌, or_throw, show, draw_children,
  draw_traversal, put_back,
}
use fhmuenster.Scenegraph.Motions.{
  Motions, NonSingular, everything, IsSound, SoundDrawn, update_light-SoundKind,
  draw_kind-SoundDrawn, All-everything,
}
use fhmuenster.Scenegraph.Recursion.{draw_below, Agrees, draw_traversal-draw_below}
pub use fhmuenster.Scenegraph.Depth.Edges.{
  map-set, map-set_eq, get_elem?-map, get_elem?-of-lt, or_throw-bind, is_camera, Outline, outline,
  shape,
}
pub use fhmuenster.Scenegraph.Depth.Below.{IsRanked}
use fhmuenster.Scenegraph.Depth.Below.{Outcome, below-Outcome}

-- A traversal returns with the edges of the graph and the matrices on the stack unchanged and every
-- node sound, or throws a TypeError where there is a failure.
abbrev pub SoundOutcome :
    {p : Platform} → Motions p → List Outline → List p.Mat4 → Result (World p) → Type 0
SoundOutcome L sh stack (ok w) =
    (shape w.scene ≡ sh)
    × All (IsSound L) w.scene.nodes
    × (view w.matrices ≡ stack)
    × IsAllocated w.matrices
SoundOutcome L sh stack (throw type_error) = Motions.Failure L
SoundOutcome L sh stack (throw range_error) = ⊥

abbrev pub WorldOutcome : {p : Platform} → List Outline → List p.Mat4 → Result (World p) → Type 0
WorldOutcome sh stack (ok w) =
    (shape w.scene ≡ sh) × (view w.matrices ≡ stack) × IsAllocated w.matrices
WorldOutcome {p} sh stack (throw type_error) = ¬ NonSingular p
WorldOutcome sh stack (throw range_error) = ⊥

module _ {p : Platform} where
  carry_over :
      (L : Motions p) (sh : List Outline) (stack : List p.Mat4) (a : Result (Scene p))
      (b : Result (World p))
      → Outcome L sh a
      → Agrees p stack a b
      → SoundOutcome L sh stack b
  carry_over L sh stack (ok s) (ok w) (e, sound) (same, v, h) =
      (ap shape same ∙ e, subst (λ x. All (IsSound L) x.nodes) (sym same) sound, v, h)
  carry_over L sh stack (ok s) (throw x) e h = absurd h
  carry_over L sh stack (throw x) (ok w) e h = absurd h
  carry_over L sh stack (throw type_error) (throw type_error) e h = e
  carry_over L sh stack (throw type_error) (throw range_error) e h = cc
  carry_over L sh stack (throw range_error) (throw x) e h = absurd e

  -- In an acyclic graph, shown so by a rank that falls along every edge, over a stack whose top is
  -- in a set of motions, with every node sound for the set and the days one of its numbers,
  -- `drawTraversal` at a node whose rank is below the fuel ends: it returns with the edges of the
  -- graph and the matrices on the stack as they were and every node sound, or it throws a TypeError,
  -- and then a matrix of the set is singular.
  pub draw_traversal-SoundOutcome :
      (L : Motions p) (days : p.R) (rank : ℕ → ℕ) (fuel id : ℕ) (w : World p) (parent : p.Mat4)
      (rest : List p.Mat4)
      → L.IsNumber days
      → L.IsMotion parent
      → All (IsSound L) w.scene.nodes
      → IsRanked (shape w.scene) rank
      → id < length (shape w.scene)
      → rank id < fuel
      → IsAllocated w.matrices
      → view w.matrices ≡ parent ∷ rest
      → SoundOutcome L (shape w.scene) (parent ∷ rest) (draw_traversal days fuel id w)
  draw_traversal-SoundOutcome L days rank fuel id w parent rest d m sound ranked there deep h e =
      carry_over L (shape w.scene) (parent ∷ rest) (draw_below days fuel parent id w.scene)
        (draw_traversal days fuel id w)
        (below-Outcome L days d rank (shape w.scene) ranked fuel parent m id w.scene refl sound
          there deep)
        (draw_traversal-draw_below p days fuel parent rest id w h e)

  forget_sound :
      (sh : List Outline) (stack : List p.Mat4) (r : Result (World p))
      → SoundOutcome (everything p) sh stack r
      → WorldOutcome sh stack r
  forget_sound sh stack (ok w) (e, sound, v, h) = (e, v, h)
  forget_sound sh stack (throw type_error) h = h
  forget_sound sh stack (throw range_error) h = h

  -- In an acyclic graph, shown so by a rank that falls along every edge, `drawTraversal` at a node
  -- whose rank is below the fuel ends: it returns with the edges of the graph and the matrices on
  -- the stack as they were, or it throws a TypeError, and that not where no matrix is singular.
  pub draw_traversal-Outcome :
      (days : p.R) (rank : ℕ → ℕ) (fuel id : ℕ) (w : World p) (parent : p.Mat4) (rest : List p.Mat4)
      → IsRanked (shape w.scene) rank
      → id < length (shape w.scene)
      → rank id < fuel
      → IsAllocated w.matrices
      → view w.matrices ≡ parent ∷ rest
      → WorldOutcome (shape w.scene) (parent ∷ rest) (draw_traversal days fuel id w)
  draw_traversal-Outcome days rank fuel id w parent rest ranked there deep h e =
      forget_sound (shape w.scene) (parent ∷ rest) (draw_traversal days fuel id w) (
        draw_traversal-SoundOutcome (everything p) days rank fuel id w parent rest tt tt
          (All-everything w.scene.nodes) ranked there deep h e)
