-- ===== src/Main/Frame/Spoiled.antt =====
-- What a gamepad without a fifth axis does to the program.
use mathlib.Core.Path.{subst}
use fhmuenster.Base.{
  ℕ, ◌≤◌, ◌≡◌, refl, sym, ap, ◌∙◌, inl, inr, Bool, none, some, List, [], ◌∷◌, ◌++◌, get_elem?,
  length, Option-cases, lt-of-get_elem?, get_elem?-set_self,
}
use fhmuenster.Platform.{Platform}
use fhmuenster.WebGl.{
  Gl, ◌▷◌, viewport, clear, uniform_matrix4, uniform_matrix3, model_view_matrix, normal_matrix,
}
use fhmuenster.WebGlStart.{get_instance}
use fhmuenster.Camera
use fhmuenster.Camera.{Camera, moved}
use fhmuenster.Camera.View.{draw_view}
use fhmuenster.Timer.{days_passed}
use fhmuenster.GameController.{Reading}
use fhmuenster.GameController.Axes.{axes_action-four}
use fhmuenster.GameController.Connection.{moved_by, update_status-Follows}
use fhmuenster.SgNode.{Kind, Node, Scene, camera, draw_kind, drawn_camera, update_light}
use fhmuenster.Scenegraph
use fhmuenster.Scenegraph.{
  World, Result, ok, throw, type_error, range_error, ◌>>=◌, or_throw, enter, show, draw_traversal,
}
use fhmuenster.Main.Frame.{
  Program, FrameInput, Input, frame, fuel, put_camera, with_camera, draw_scene, on_input,
  new_program,
}
use fhmuenster.Main.Frame.Ready.{IsReady, GoesOn, new_program-SoundReady, camera_at}
use fhmuenster.Scenegraph.Motions.{everything}
use fhmuenster.Main.Frame.Run.{run, after_all, AllHonest, new_program-run}

-- Matrices that a rotation by the quotient of NaN spoils, that stay spoiled when they are moved,
-- and that have no inverse.
pub record Spoils (p : Platform) : Type 1 where
  pub IsSpoiled : p.Mat4 → Type 0
  pub rotate_nan : (m : p.Mat4) → IsSpoiled (p.rotate_x m (p.div (p.neg p.nan) (p.of_ℕ 10)))
  pub translate_spoiled :
      (m : p.Mat4) (a b c : p.R) → IsSpoiled m → IsSpoiled (p.translate m (p.vec3 a b c))
  pub rotate_x_spoiled : (m : p.Mat4) (a : p.R) → IsSpoiled m → IsSpoiled (p.rotate_x m a)
  pub rotate_y_spoiled : (m : p.Mat4) (a : p.R) → IsSpoiled m → IsSpoiled (p.rotate_y m a)
  pub rotate_z_spoiled : (m : p.Mat4) (a : p.R) → IsSpoiled m → IsSpoiled (p.rotate_z m a)
  pub spoiled_singular : (m : p.Mat4) → IsSpoiled m → p.invert m ≡ none

module _ {p : Platform} where
  drawn_camera_throws :
      (c : Camera p) (t : p.Mat4) (g : Gl p)
      → p.invert (moved c) ≡ none
      → drawn_camera t (Camera.draw c g) ≡ none
  drawn_camera_throws c t g singular = elim (draw_view c g) [
    | inl (threw, _) ↦ rw threw refl
    | inr (view, c', g', drawn, regular, matrix, speeds, fov, log) ↦ cc
  ]

  draw_kind_throws :
      (days : p.R) (world t : p.Mat4) (k : Kind p) (c : Camera p) (g : Gl p)
      → k ≡ camera c
      → p.invert (moved c) ≡ none
      → draw_kind days (update_light world k) t g ≡ none
  unfolding update_light draw_kind
  draw_kind_throws days world t k c g kind singular =
      subst (λ l. draw_kind days (update_light world l) t g ≡ none) (sym kind)
        (drawn_camera_throws c t g singular)

  show_throws :
      (days : p.R) (world : p.Mat4) (id : ℕ) (n : Node p) (c : Camera p) (s : Scene p)
      → n.kind ≡ camera c
      → p.invert (moved c) ≡ none
      → show days world id n s ≡ throw type_error
  unfolding show
  show_throws days world id n c s kind singular = elim (Option-cases (p.normal_from_mat4 world)) [
    | inl flat ↦ rw flat refl
    | inr (normal, upright) ↦
        let g =
          s.gl ▷ uniform_matrix4 model_view_matrix world ▷ uniform_matrix3 normal_matrix normal in
        rw (upright, draw_kind_throws days world n.trafo n.kind c g kind singular) refl
  ]

  -- A traversal that comes to a camera with a singular matrix.
  traversal_throws :
      (days : p.R) (id : ℕ) (n : Node p) (c : Camera p) (w : World p)
      → get_elem? w.scene.nodes id ≡ some n
      → n.kind ≡ camera c
      → p.invert (moved c) ≡ none
      → draw_traversal days fuel id w ≡ throw type_error
  unfolding draw_traversal
  traversal_throws days id n c w found kind singular =
      let s0 : Scene p = record w.scene { gl = get_instance w.scene.gl } in
      elim (Option-cases (enter p n.trafo w.matrices)) [
        | inl empty ↦ rw (found, empty) refl
        | inr ((trafo, m), entered) ↦
            rw (found, entered, show_throws days (m.cell trafo) id n c s0 kind singular) refl
      ]

  module _ (S : Spoils p) where
    open S use {IsSpoiled}

    moved_spoiled : (c : Camera p) → IsSpoiled c.camera_matrix → IsSpoiled (moved c)
    unfolding moved
    moved_spoiled c h =
        S.rotate_z_spoiled _ _
          (S.rotate_y_spoiled _ _ (S.rotate_x_spoiled _ _ (S.translate_spoiled _ _ _ _ h)))

    four_axes_spoil :
        (i : ℕ) (read : ℕ → Reading p.R) (c : Camera p)
        → length (read i).axes ≤ 4
        → IsSpoiled (moved_by (some i) read c).camera_matrix
    four_axes_spoil i read c h =
        subst IsSpoiled (sym (axes_action-four p (read i).axes _ h)) (S.rotate_nan _)

    frame_throws :
        (i : ℕ) (input : FrameInput p) (pr : Program p)
        → IsReady (some i) pr
        → length (input.read i).axes ≤ 4
        → draw_scene 6 input pr ≡ throw type_error
    unfolding draw_scene with_camera Scenegraph.draw
    frame_throws i input pr ready short =
        let nodes = pr.world.scene.nodes in
        let (n, c, found, at, kind, tag) =
          camera_at nodes 6 (ap (λ t. get_elem? t 6) ready.graph) in
        let c' = moved_by (some i) input.read c in
        let followed = update_status-Follows (some i) pr.controller input.read c ready.follows in
        let g = get_instance pr.world.scene.gl in
        let s0 : Scene p = record pr.world.scene { gl = g ▷ viewport g.width g.height ▷ clear } in
        let there =
          get_elem?-set_self nodes 6 (record n { kind = camera c' }) (lt-of-get_elem? nodes 6 at) in
        let singular =
          S.spoiled_singular _ (moved_spoiled c' (four_axes_spoil i input.read c short)) in
        rw (found, followed)
          (rw
            (traversal_throws (days_passed input.first input.second pr.timer).0 6
              (record n { kind = camera c' }) c' (record pr.world { scene = put_camera 6 n s0 c' })
              there refl singular)
            refl)

    last_frame :
        (i : ℕ) (input : FrameInput p) (r : Result (Program p))
        → GoesOn (some i) r
        → length (input.read i).axes ≤ 4
        → (r >>= on_input 6 (frame input)) ≡ throw type_error
    unfolding on_input
    last_frame i input (ok pr) ready short = frame_throws i input pr ready short
    last_frame i input (throw type_error) g short = refl
    last_frame i input (throw range_error) g short = absurd g

  bind_ok : (r : Result (Program p)) → (r >>= ok) ≡ r
  bind_ok (ok pr) = refl
  bind_ok (throw e) = refl

  run-append :
      (id : ℕ) (is : List (Input p)) (i : Input p) (pr : Program p)
      → run id (is ++ (i ∷ [])) pr ≡ (run id is pr >>= on_input id i)
  unfolding run
  run-append id [] i pr = bind_ok (on_input id i pr)
  run-append id (j ∷ is) i pr = bind_append (on_input id j pr) (λ pr'. run-append id is i pr')
    where
      bind_append :
          (r : Result (Program p))
          → ((pr' : Program p) → run id (is ++ (i ∷ [])) pr' ≡ (run id is pr' >>= on_input id i))
          → (r >>= run id (is ++ (i ∷ []))) ≡ ((r >>= run id is) >>= on_input id i)
      bind_append (ok pr') h = h pr'
      bind_append (throw e) h = refl

-- Where a rotation by NaN spoils the camera's matrix for good: after any animation frames, key,
-- gamepad and image events in any order, where a gamepad is present when it announces itself, if a
-- gamepad is in use that has at most four axes, the next frame ends the program in a TypeError.
pub new_program-four_axes :
    (p : Platform) (S : Spoils p) (now : ℕ) (present : ℕ → Bool) (g : Gl p) (is : List (Input p))
    (i : ℕ) (input : FrameInput p)
    → AllHonest is
    → after_all is none ≡ some i
    → length (input.read i).axes ≤ 4
    → let (m, pr) = new_program p now present g in
      run m.camera_id (is ++ (frame input ∷ [])) pr ≡ throw type_error
new_program-four_axes p S now present g is i input honest using short =
    let (m, pr) = new_program p now present g in
    let goes =
      subst (λ c. GoesOn c (run m.camera_id is pr)) using
        (new_program-run p now present g is honest) in
    run-append m.camera_id is (frame input) pr
    ∙ last_frame_at m.camera_id ((new_program-SoundReady (everything p) now present g).1)
        (run m.camera_id is pr) goes
  where
    last_frame_at :
        (id : ℕ)
        → id ≡ 6
        → (r : Result (Program p)) → GoesOn (some i) r
        → (r >>= on_input id (frame input)) ≡ throw type_error
    last_frame_at id e r goes =
        subst (λ c. (r >>= on_input c (frame input)) ≡ throw type_error) (sym e)
          (last_frame S i input r goes short)
