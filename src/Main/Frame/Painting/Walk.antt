-- ===== src/Main/Frame/Painting/Walk.antt =====
-- What a frame and a camera's methods do to the matrices and the paint.
use mathlib.Core.Path.{subst}
use mathlib.Core.Option.{some-injective}
use fhmuenster.Base.{ℕ, ◌≡◌, refl, sym, ap, ◌∙◌, Option, none, some, List, [], ◌∷◌, get_elem?, set}
use fhmuenster.Platform.{Platform}
use fhmuenster.Camera.{Camera}
use fhmuenster.Light.{Light}
use fhmuenster.SgNode.{Kind, Node, Scene, camera}
use fhmuenster.Scenegraph.{World, Result, ok, throw, draw_traversal}
use fhmuenster.Scenegraph.Depth.{map-set_eq, get_elem?-map}
use fhmuenster.Main.Setup.Painting.{solar_sights}
use fhmuenster.Scenegraph.Holds.{Holds, or_throw-Holds}
use fhmuenster.Scenegraph.Painting.{Tag, views, tag}
use fhmuenster.Scenegraph.Recursion.{draw_below, Agrees, draw_traversal-draw_below}
use fhmuenster.MatrixStack.View.{view, IsAllocated}
use fhmuenster.Scenegraph.Painting.Walk.{Sight, sight, sights, stage, walk, draw_below-Painted}
use fhmuenster.Main.Frame.{fuel, as_camera, camera_of, with_camera}

module _ {p : Platform} where
  as_camera_lem :
      (n : Node p) (k : Kind p) {r : Node p × Camera p}
      → as_camera n k ≡ some r
      → (n ≡ r.0) × (k ≡ camera r.1)
  as_camera_lem n (camera c) e =
      let same = some-injective _ _ e in
      (ap (λ (t : Node p × Camera p). t.0) same, ap (λ (t : Node p × Camera p). camera t.1) same)
  as_camera_lem n k e = cc

  camera_of_lem :
      (o : Option (Node p)) {r : Node p × Camera p}
      → camera_of o ≡ some r
      → (o ≡ some r.0) × (r.0.kind ≡ camera r.1)
  camera_of_lem none e = cc
  camera_of_lem (some n) e =
      let (same, kind) = as_camera_lem n n.kind e in
      (ap some same, ap (λ (m : Node p). m.kind) (sym same) ∙ kind)

  camera_in : Camera p → Tag p → Camera p
  camera_in d (views c) = c
  camera_in d t = d

  -- A method of the camera changes nothing but the camera, in the solar system.
  pub with_camera-Painted :
      (t : ℕ → ℕ) (eye : Camera p) (lamp : Light p) (days : List p.R)
      (method : Camera p → Option (Camera p)) (s : Scene p)
      → sights s ≡ solar_sights p t eye lamp days
      → Holds
          (λ s'.
            (eye' : Camera p) × (method eye ≡ some eye')
            × (sights s' ≡ solar_sights p t eye' lamp days)
            × (s'.gl ≡ s.gl))
          (with_camera 6 method s)
  unfolding with_camera camera_in
  with_camera-Painted t eye lamp days method s seen =
      let Next : Scene p → Type 0 = λ s'.
        (eye' : Camera p) × (method eye ≡ some eye')
        × (sights s' ≡ solar_sights p t eye' lamp days)
        × (s'.gl ≡ s.gl) in
      or_throw-Holds Next (camera_of (get_elem? s.nodes 6)) _ λ (n, c) e.
        or_throw-Holds Next (method c) _ λ eye' e'.
          let (there, kind) = camera_of_lem (get_elem? s.nodes 6) e in
          let here =
            some-injective _ _
              (sym (get_elem?-map sight s.nodes 6 there) ∙ ap (λ l. get_elem? l 6) seen) in
          let same : c ≡ eye =
            ap (camera_in c) (sym (ap tag kind) ∙ ap (λ (x : Sight p). x.tag) here) in
          (
            eye',
            ap method (sym same) ∙ e',
            map-set_eq sight s.nodes 6 (record n { kind = camera eye' })
                ∙ (λ i. set (seen i) 6 (record (here i) { tag = views eye' })),
            refl,
          )

  -- One matrix on the stack.
  abbrev pub Rests : World p → Type 0
  Rests w = (view w.matrices ≡ p.create ∷ []) × IsAllocated w.matrices

  -- What holds of the scene after the recursion holds after the traversal.
  rests :
      (P : Scene p → Type 0) (a : Result (Scene p)) (b : Result (World p))
      → Agrees p (p.create ∷ []) a b
      → Holds P a
      → Holds (λ w. P w.scene × Rests w) b
  rests P (ok s) (ok w) (same, stack, allocated) h = (subst P (sym same) h, (stack, allocated))
  rests P (ok s) (throw b) e h = tt
  rests P (throw a) (ok w) e h = absurd e
  rests P (throw a) (throw b) e h = tt

  -- A traversal with one matrix on the stack paints as a walk does.
  pub draw_traversal-walk :
      (days : p.R) (id : ℕ) (w : World p)
      → Rests w
      → Holds
          (λ w'. (stage w'.scene ≡ walk days fuel p.create id (stage w.scene)) × Rests w')
          (draw_traversal days fuel id w)
  draw_traversal-walk days id w (stack, allocated) =
      rests (λ s. stage s ≡ walk days fuel p.create id (stage w.scene))
        (draw_below days fuel p.create id w.scene) (draw_traversal days fuel id w)
        (draw_traversal-draw_below p days fuel p.create [] id w allocated stack)
        (draw_below-Painted days fuel p.create id w.scene)
