-- ===== src/Main/Frame/Requests.antt =====
-- The animation frames that the program asks for.
use mathlib.Core.Path.{subst}
use fhmuenster.Base.{
  ℕ, suc, ◌+◌, ◌≡◌, refl, ap, ◌∙◌, Bool, Option, none, some, List, [], ◌∷◌, get_elem?, arith,
}
use fhmuenster.Platform.{Platform}
use fhmuenster.WebGl.{Gl, ◌▷◌, viewport, clear}
use fhmuenster.WebGl.Requests.{requested, requested-get_instance}
use fhmuenster.WebGlStart.{get_instance}
use fhmuenster.Camera.{Camera}
use fhmuenster.Camera.Keys.{on_key}
use fhmuenster.GameController.{update_status}
use fhmuenster.Timer.{days_passed}
use fhmuenster.Texture.{Texture, ImageEvent, onload, onerror, on_image, load_texture}
use fhmuenster.SgNode.{Scene}
use fhmuenster.Scenegraph
use fhmuenster.Scenegraph.{World, Result, ok, throw, ◌>>=◌, or_throw}
use fhmuenster.Scenegraph.Motions.{Motions}
use fhmuenster.Scenegraph.Holds.{Holds, bind-Holds, or_throw-Holds}
use fhmuenster.Scenegraph.Requests.{draw_traversal_quiet}
use fhmuenster.Main.Setup.Requests.{make_scene_quiet}
use fhmuenster.Main.Frame.{
  Program, FrameInput, Input, frame, key, gamepad, image, fuel, camera_of, with_camera, draw_scene,
  on_input, new_program,
}
use fhmuenster.Main.Frame.Run.{run, AllSound, new_program_goes_on}

module _ {p : Platform} where
  -- The frames of a run.
  abbrev pub frames : List (Input p) → ℕ
  frames [] = 0
  frames (frame input ∷ is) = suc (frames is)
  frames (i ∷ is) = frames is

  -- The requests that a program has made.
  abbrev pub asked : Program p → ℕ
  asked pr = requested pr.world.scene.gl

  with_camera_quiet :
      (id : ℕ) (method : Camera p → Option (Camera p)) (s : Scene p)
      → Holds (λ s'. requested s'.gl ≡ requested s.gl) (with_camera id method s)
  unfolding with_camera
  with_camera_quiet id method s =
      let Same : Scene p → Type 0 = λ s'. requested s'.gl ≡ requested s.gl in
      or_throw-Holds Same (camera_of (get_elem? s.nodes id)) _
        λ found e. or_throw-Holds Same (method found.1) _ λ c e'. refl

  on_image_quiet :
      (t : Texture) (e : ImageEvent) (g : Gl p) → requested (on_image t e g) ≡ requested g
  unfolding on_image load_texture
  on_image_quiet t onload g = requested-get_instance g
  on_image_quiet t onerror g = refl

  draw_scene-asked :
      (id : ℕ) (input : FrameInput p) (pr : Program p)
      → Holds (λ pr'. asked pr' ≡ suc (asked pr)) (draw_scene id input pr)
  unfolding draw_scene Scenegraph.draw
  draw_scene-asked id input pr =
      let g = get_instance pr.world.scene.gl in
      let s0 : Scene p = record pr.world.scene { gl = g ▷ viewport g.width g.height ▷ clear } in
      let Next : Program p → Type 0 = λ pr'. asked pr' ≡ suc (asked pr) in
      let steer = with_camera id (update_status pr.controller input.read) s0 in
      bind-Holds (λ s. requested s.gl ≡ requested s0.gl) Next steer _
        (with_camera_quiet id (update_status pr.controller input.read) s0)
        λ s h.
          let w : World p = record pr.world { scene = s } in
          let days = (days_passed input.first input.second pr.timer).0 in
          bind-Holds (λ (w' : World p). requested w'.scene.gl ≡ requested s.gl) Next
            (Scenegraph.draw_traversal days fuel id w) _ (draw_traversal_quiet days fuel id w)
            λ w' k. ap suc (k ∙ h ∙ requested-get_instance pr.world.scene.gl)

  on_input-asked :
      (id : ℕ) (i : Input p) (pr : Program p)
      → Holds (λ pr'. asked pr' ≡ asked pr + frames (i ∷ [])) (on_input id i pr)
  unfolding on_input
  on_input-asked id (frame input) pr = go (draw_scene id input pr) (draw_scene-asked id input pr)
    where
      go :
          (r : Result (Program p))
          → Holds (λ pr'. asked pr' ≡ suc (asked pr)) r
          → Holds (λ pr'. asked pr' ≡ asked pr + 1) r
      go (ok pr') h = omega arith
      go (throw e) h = tt
  on_input-asked id (key e) pr =
      bind-Holds (λ s. requested s.gl ≡ asked pr) (λ (pr' : Program p). asked pr' ≡ asked pr + 0)
        (with_camera id (λ c. some (on_key e c)) pr.world.scene) _
        (with_camera_quiet id (λ c. some (on_key e c)) pr.world.scene) λ s h. omega arith
  on_input-asked id (gamepad e) pr = omega arith
  on_input-asked id (image t e) pr = let h = on_image_quiet t e pr.world.scene.gl in omega arith

  frames-cons : (i : Input p) (is : List (Input p)) → frames (i ∷ is) ≡ frames (i ∷ []) + frames is
  frames-cons (frame input) is = omega arith
  frames-cons (key e) is = omega arith
  frames-cons (gamepad e) is = omega arith
  frames-cons (image t e) is = omega arith

  run-asked :
      (id : ℕ) (is : List (Input p)) (pr : Program p)
      → Holds (λ pr'. asked pr' ≡ asked pr + frames is) (run id is pr)
  unfolding run
  run-asked id [] pr = omega arith
  run-asked id (i ∷ is) pr =
      bind-Holds (λ pr'. asked pr' ≡ asked pr + frames (i ∷ [])) _ (on_input id i pr) _
        (on_input-asked id i pr)
        λ pr' h. go pr' h (frames-cons i is) (run id is pr') (run-asked id is pr')
    where
      go :
          (pr' : Program p)
          → asked pr' ≡ asked pr + frames (i ∷ [])
          → frames (i ∷ is) ≡ frames (i ∷ []) + frames is
          → (r : Result (Program p)) → Holds (λ pr''. asked pr'' ≡ asked pr' + frames is) r
          → Holds (λ pr''. asked pr'' ≡ asked pr + frames (i ∷ is)) r
      go pr' h e (ok pr'') k = omega arith
      go pr' h e (throw x) k = tt

  new_program-asked :
      (now : ℕ) (present : ℕ → Bool) (g : Gl p)
      → asked (new_program p now present g).1 ≡ suc (requested g)
  unfolding new_program
  new_program-asked now present g = ap suc (make_scene_quiet p g)

asked_of :
    {p : Platform} (n : ℕ) (r : Result (Program p)) (pr : Program p)
    → Holds (λ pr'. asked pr' ≡ n) r
    → r ≡ ok pr
    → asked pr ≡ n
asked_of n r pr h e = subst (Holds λ pr'. asked pr' ≡ n) e h

-- In a set of motions that has no failure, from the script's end on, over any animation frames,
-- key, gamepad and image events in any order, the program never throws, and it has asked for one
-- animation frame more than have been drawn: the script asks for the first, and each frame for the
-- next, while no event asks for any. A gamepad has to be present when it announces itself, and in
-- each frame the four axes that are read of the gamepad in use have to be numbers of the set.
pub new_program-frames :
    {p : Platform} (L : Motions p) (now : ℕ) (present : ℕ → Bool) (g : Gl p) (is : List (Input p))
    → ¬ L.Failure
    → AllSound L none is
    → (pr : Program p) × (run
          (new_program p now present g).0.camera_id
          is
          (new_program p now present g).1
        ≡ ok pr)
      × (asked pr ≡ requested g + suc (frames is))
new_program-frames {p} L now present g is n h =
    let (m, start) = new_program p now present g in
    let (pr, ran, ready) = new_program_goes_on L now present g is n h in
    let counted = asked_of _ (run m.camera_id is start) pr (run-asked m.camera_id is start) ran in
    let first = new_program-asked now present g in (pr, ran, omega arith)
