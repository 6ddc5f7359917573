-- ===== src/Main/Frame/Supply.antt =====
-- The draw calls of the whole program, beside what the buffers hold.
use mathlib.Core.Path.{subst}
use fhmuenster.Base.{ℕ, ◌≡◌, refl, Bool, Option, none, some, List, [], ◌∷◌, get_elem?, All-set}
use fhmuenster.Platform.{Platform}
use fhmuenster.WebGl.{Gl, ◌▷◌, viewport, clear, request_animation_frame}
use fhmuenster.WebGl.Supply.{
  AllSupplied, Supports, Supports-refl, Supports-after, get_instance-Supports,
}
use fhmuenster.WebGlStart.{get_instance}
use fhmuenster.Camera.{Camera}
use fhmuenster.Camera.Keys.{on_key}
use fhmuenster.GameController.{update_status}
use fhmuenster.Timer.{days_passed}
use fhmuenster.Texture.{Texture, ImageEvent, onload, onerror, on_image, load_texture}
use fhmuenster.SgNode.{Scene}
use fhmuenster.Scenegraph
use fhmuenster.Scenegraph.{World, Result, ok, throw, ◌>>=◌, or_throw}
use fhmuenster.Scenegraph.Motions.{Motions}
use fhmuenster.Scenegraph.Holds.{Holds, bind-Holds, or_throw-Holds, draw_traversal-Holds}
use fhmuenster.Scenegraph.Supply.{IsSupplied, IsSupplied-Supports, IsSupplied-IsKept, NodeStores}
use fhmuenster.Main.Setup.{make_scene}
use fhmuenster.Main.Setup.Supply.{make_scene-IsSupplied}
use fhmuenster.Main.Frame.{
  Program, FrameInput, Input, frame, key, gamepad, image, fuel, camera_of, with_camera, draw_scene,
  on_input, new_program,
}
use fhmuenster.Main.Frame.Run.{run, AllSound, new_program_goes_on}

module _ {p : Platform} where
  with_camera-IsSupplied :
      (id : ℕ) (method : Camera p → Option (Camera p)) (s : Scene p)
      → IsSupplied s
      → Holds IsSupplied (with_camera id method s)
  unfolding with_camera
  with_camera-IsSupplied id method s h =
      or_throw-Holds IsSupplied (camera_of (get_elem? s.nodes id)) _ λ found e.
        or_throw-Holds IsSupplied (method found.1) _ λ c e'. record {
          drawn = h.drawn;
          nodes = All-set (NodeStores s.gl) s.nodes id _ h.nodes tt;
        }

  on_image-Supports : (t : Texture) (e : ImageEvent) (g : Gl p) → Supports g (on_image t e g)
  unfolding on_image load_texture
  on_image-Supports t onload g =
      Supports-after _ (get_instance-Supports g) refl (λ b. refl) (λ b. refl) (λ s. s)
  on_image-Supports t onerror g =
      Supports-after _ (Supports-refl g) refl (λ b. refl) (λ b. refl) (λ s. s)

  -- A program whose draw calls have been supplied, and will be.
  abbrev Serves : Program p → Type 0
  Serves pr = IsSupplied pr.world.scene

  -- The request for a frame.
  ask : (s : Scene p) → IsSupplied s → IsSupplied (record s { gl = s.gl ▷ request_animation_frame })
  ask s h =
      IsSupplied-Supports s (s.gl ▷ request_animation_frame)
        (Supports-after _ (Supports-refl s.gl) refl (λ b. refl) (λ b. refl) (λ r. r)) h

  draw_scene-Serves :
      (id : ℕ) (input : FrameInput p) (pr : Program p)
      → Serves pr
      → Holds Serves (draw_scene id input pr)
  unfolding draw_scene Scenegraph.draw
  draw_scene-Serves id input pr h =
      let g = get_instance pr.world.scene.gl in
      let g0 = g ▷ viewport g.width g.height ▷ clear in
      let cleared =
        Supports-after g0 (get_instance-Supports pr.world.scene.gl) refl (λ b. refl) (λ b. refl)
          (λ s. s) in
      let s0 : Scene p = record pr.world.scene { gl = g0 } in
      bind-Holds IsSupplied Serves (with_camera id (update_status pr.controller input.read) s0) _
        (with_camera-IsSupplied id (update_status pr.controller input.read) s0
          (IsSupplied-Supports pr.world.scene g0 cleared h))
        λ s steered.
          let days = (days_passed input.first input.second pr.timer).0 in
          let w : World p = record pr.world { scene = s } in
          bind-Holds (λ w'. IsSupplied w'.scene) Serves (Scenegraph.draw_traversal days fuel id w) _
            (draw_traversal-Holds IsSupplied IsSupplied-IsKept days fuel id w steered)
            λ w' drawn. ask w'.scene drawn

  on_input-Serves :
      (id : ℕ) (i : Input p) (pr : Program p) → Serves pr → Holds Serves (on_input id i pr)
  unfolding on_input
  on_input-Serves id (frame input) pr h = draw_scene-Serves id input pr h
  on_input-Serves id (key e) pr h =
      bind-Holds IsSupplied Serves (with_camera id (λ c. some (on_key e c)) pr.world.scene) _
        (with_camera-IsSupplied id (λ c. some (on_key e c)) pr.world.scene h) λ s k. k
  on_input-Serves id (gamepad e) pr h = h
  on_input-Serves id (image t e) pr h =
      IsSupplied-Supports pr.world.scene (on_image t e pr.world.scene.gl)
        (on_image-Supports t e pr.world.scene.gl) h

  run-Serves :
      (id : ℕ) (is : List (Input p)) (pr : Program p) → Serves pr → Holds Serves (run id is pr)
  unfolding run
  run-Serves id [] pr h = h
  run-Serves id (i ∷ is) pr h =
      bind-Holds Serves Serves (on_input id i pr) _ (on_input-Serves id i pr h)
        λ pr' k. run-Serves id is pr' k

  new_program-Serves :
      (now : ℕ) (present : ℕ → Bool) (g : Gl p)
      → AllSupplied g.log
      → Serves (new_program p now present g).1
  unfolding new_program
  new_program-Serves now present g h =
      let made = (make_scene p (record { nodes = []; gl = g })).1 in
      ask made (make_scene-IsSupplied g h)

-- In a set of motions that has no failure, from the script's end on, over any animation frames, key,
-- gamepad and image events in any order, the program goes on, and at every draw call that it has
-- made, each of the three attributes reads from a buffer that holds all its components for every
-- vertex of the call: for a call by indices, the bound element buffer holds as many indices as the
-- call reads, and those are the vertices. The draw calls from before the script, if there are any,
-- have to be so. A gamepad has to be present when it announces itself, and in each frame the four
-- axes that are read of the gamepad in use have to be numbers of the set.
pub new_program-AllSupplied :
    {p : Platform} (L : Motions p) (now : ℕ) (present : ℕ → Bool) (g : Gl p) (is : List (Input p))
    → ¬ L.Failure
    → AllSound L none is
    → AllSupplied g.log
    → let (m, start) = new_program p now present g in
      (pr : Program p) × (run m.camera_id is start ≡ ok pr) × AllSupplied pr.world.scene.gl.log
new_program-AllSupplied {p} L now present g is n h before =
    let (m, start) = new_program p now present g in
    let (pr, ran, _) = new_program_goes_on L now present g is n h in
    let serves =
      subst (Holds Serves) ran
        (run-Serves m.camera_id is start (new_program-Serves now present g before)) in
    (pr, ran, serves.drawn)
