-- ===== src/Main/Frame/Painting/Picture.antt =====
-- What a frame and the events make of the picture of the solar system.
use mathlib.Core.Path.{subst}
use mathlib.Core.Option.{some-injective}
use fhmuenster.Base.{
  Option, length, arith, ◌*◌, ℕ, ◌+◌, ◌≡◌, refl, sym, ap, ◌∙◌, some, List, [], ◌∷◌, ◌++◌,
}
use fhmuenster.Platform.{Platform}
use fhmuenster.WebGl.{Gl, ◌▷◌, viewport, clear}
use fhmuenster.WebGl.Bindings.{image_of}
use fhmuenster.WebGl.Paint.{canvas, current, painted, effect, effect-get_instance}
use fhmuenster.WebGlStart.{get_instance}
use fhmuenster.Camera.{Camera}
use fhmuenster.Camera.Keys.{on_key}
use fhmuenster.GameController.{update_status}
use fhmuenster.GameController.Connection.{
  Follows, moved_by, on_event-Follows, update_status-Follows,
}
use fhmuenster.Timer.{days_passed}
use fhmuenster.SgNode.{Scene}
use fhmuenster.Scenegraph
use fhmuenster.Scenegraph.{World, Result, ok, throw, ◌>>=◌, or_throw, draw_traversal}
use fhmuenster.Scenegraph.Holds.{Holds, Holds-map, bind-Holds}
use fhmuenster.Scenegraph.Painting.{shot}
use fhmuenster.Scenegraph.Painting.Walk.{sights, stage, walk}
use fhmuenster.Main.Setup.Painting.{solar_sights}
use fhmuenster.Main.Frame.{
  Program, FrameInput, Input, frame, key, gamepad, image, fuel, with_camera, draw_scene, on_input,
}
use fhmuenster.Main.Frame.Pose.{Pose, look, shone, loaded, pose_after, pose_of}
use fhmuenster.Main.Frame.Run.{run, AllHonest}
use fhmuenster.Main.Frame.Ready.{IsHonest}
use fhmuenster.Main.Frame.Painting.Images.{canvas-on_image, buffers-on_image, images-on_image}
use fhmuenster.Main.Frame.Painting.Solar.{solar_paints, walk-solar_sights}
use fhmuenster.Main.Frame.Painting.Walk.{with_camera-Painted, Rests, draw_traversal-walk}

module _ {p : Platform} (n : ℕ) (size : p.R × p.R) (made : ℕ) where
  -- The program shows the solar system as `s` says, with the first texture `n` and a canvas of these
  -- sides, and has twelve buffers for each frame beside the `made` of the script.
  pub record Shows (s : Pose p) (pr : Program p) : Type 0 where
    pub seen : sights pr.world.scene ≡ solar_sights p (λ i. n + i) s.eye s.lamp s.days
    pub sides : canvas pr.world.scene.gl ≡ size
    pub buffers : pr.world.scene.gl.buffers ≡ made + 12 * length s.days
    pub images : Path (ℕ → Option ℕ) (λ t. image_of t pr.world.scene.gl.log) s.images
    pub timer : pr.timer ≡ s.timer
    pub follows : Follows pr.controller s.pad
    pub rests : Rests pr.world

  -- What a frame leaves and draws.
  pub record Drawn (s : Pose p) (input : FrameInput p) (pr pr' : Program p) : Type 0 where
    pub shows : Shows (pose_after size (frame input) s) pr'
    pub paints :
        painted pr'.world.scene.gl.log
        ≡ solar_paints n
            (current pr.world.scene.gl.log).light
            (shone s)
            (look size input.read s).projection
            s.images
            s.days
          ++ painted pr.world.scene.gl.log

  -- The camera that a frame moves by the gamepad in use.
  abbrev steered : Pose p → FrameInput p → Camera p
  steered s input = moved_by s.pad input.read s.eye

  -- A walk from the camera, once it is steered.
  walked-Drawn :
      (s : Pose p) (input : FrameInput p) (pr pr' : Program p)
      → Shows s pr
      → let (days, timer) = days_passed input.first input.second pr.timer in
        stage pr'.world.scene
          ≡ walk days fuel p.create 6 (
            solar_sights p (λ i. n + i) (steered s input) s.lamp s.days,
            effect pr.world.scene.gl,
          )
        → pr'.timer ≡ (days_passed input.first input.second pr.timer).1
        → pr'.controller ≡ pr.controller
        → Rests pr'.world
        → Drawn s input pr pr'
  walked-Drawn s input pr pr' h shown timer controller rest =
      let t = λ (i : ℕ). n + i in
      let e = effect pr.world.scene.gl in
      let eye = steered s input in
      let days = (days_passed input.first input.second pr.timer).0 in
      let read = ap (days_passed input.first input.second) h.timer in
      let (sees, paints, sides, more, same) = walk-solar_sights n eye s.lamp s.days days e in
      record {
        shows = record {
          seen =
              (λ i. (shown i).0)
              ∙ sees
              ∙ (λ i. solar_sights p t (shot (h.sides i) eye) (shone s) ((read i).0 ∷ s.days));
          sides = (λ i. (shown i).1.size) ∙ sides ∙ h.sides;
          buffers = let sum = (λ i. (shown i).1.buffers) ∙ more in omega (arith, sum, h.buffers);
          images = (λ i. (shown i).1.images) ∙ same ∙ h.images;
          timer = timer ∙ (λ i. (read i).1);
          follows = subst (λ c. Follows c s.pad) (sym controller) h.follows;
          rests = rest;
        };
        paints = (λ i. (shown i).1.drawn) ∙ paints ∙ (λ i.
            solar_paints n e.now.light (shone s) (shot (h.sides i) eye).projection (h.images i)
              s.days
            ++ e.drawn);
      }

  draw_scene-Shows :
      (s : Pose p) (input : FrameInput p) (pr : Program p)
      → Shows s pr
      → Holds (Drawn s input pr) (draw_scene 6 input pr)
  unfolding draw_scene Scenegraph.draw
  draw_scene-Shows s input pr h =
      let g = get_instance pr.world.scene.gl in
      let g0 = g ▷ viewport g.width g.height ▷ clear in
      let s0 : Scene p = record pr.world.scene { gl = g0 } in
      let t = λ (i : ℕ). n + i in
      let method = update_status pr.controller input.read in
      let steer = update_status-Follows s.pad pr.controller input.read s.eye h.follows in
      let days = (days_passed input.first input.second pr.timer).0 in
      bind-Holds
        (λ s'.
          (eye : Camera p) × (method s.eye ≡ some eye)
          × (sights s' ≡ solar_sights p t eye s.lamp s.days)
          × (s'.gl ≡ g0))
        (Drawn s input pr) (with_camera 6 method s0) _
        (with_camera-Painted t s.eye s.lamp s.days method s0 h.seen)
        λ s1 (eye, done, seen, gl).
          let w : World p = record pr.world { scene = s1 } in
          let same : eye ≡ steered s input = some-injective _ _ (sym done ∙ steer) in
          let before : stage s1
              ≡ (solar_sights p t (steered s input) s.lamp s.days, effect pr.world.scene.gl) =
            λ i. (
              (seen ∙ ap (λ c. solar_sights p t c s.lamp s.days) same) i,
              (ap effect gl ∙ effect-get_instance pr.world.scene.gl) i,
            ) in
          bind-Holds (λ w'. (stage w'.scene ≡ walk days fuel p.create 6 (stage s1)) × Rests w')
            (Drawn s input pr) (draw_traversal days fuel 6 w) _
            (draw_traversal-walk days 6 w h.rests)
            λ w' (drawn, rest).
              walked-Drawn s input pr _ h (drawn ∙ ap (walk days fuel p.create 6) before) refl refl
                rest

  on_input-Shows :
      (s : Pose p) (i : Input p) (pr : Program p)
      → IsHonest i
      → Shows s pr
      → Holds (Shows (pose_after size i s)) (on_input 6 i pr)
  unfolding on_input
  on_input-Shows s (frame input) pr honest h =
      Holds-map (Drawn s input pr) (Shows (pose_after size (frame input) s)) (draw_scene 6 input pr)
        (draw_scene-Shows s input pr h) λ pr' k. k.shows
  on_input-Shows s (key e) pr honest h =
      let t = λ (i : ℕ). n + i in
      bind-Holds
        (λ s'.
          (eye : Camera p) × (some (on_key e s.eye) ≡ some eye)
          × (sights s' ≡ solar_sights p t eye s.lamp s.days)
          × (s'.gl ≡ pr.world.scene.gl))
        (Shows (pose_after size (key e) s)) (with_camera 6 (λ c. some (on_key e c)) pr.world.scene)
        _ (with_camera-Painted t s.eye s.lamp s.days (λ c. some (on_key e c)) pr.world.scene h.seen)
        λ s' (eye, steered, seen, gl). record {
          seen =
              seen ∙ ap (λ c. solar_sights p t c s.lamp s.days) (some-injective _ _ (sym steered));
          sides = ap canvas gl ∙ h.sides;
          buffers = ap (λ (g : Gl p). g.buffers) gl ∙ h.buffers;
          images = (λ i t. image_of t (gl i).log) ∙ h.images;
          timer = h.timer;
          follows = h.follows;
          rests = h.rests;
        }
  on_input-Shows s (gamepad e) pr honest h = record {
    seen = h.seen;
    sides = h.sides;
    buffers = h.buffers;
    images = h.images;
    timer = h.timer;
    follows = on_event-Follows e s.pad pr.controller honest h.follows;
    rests = h.rests;
  }
  on_input-Shows s (image t e) pr honest h = record {
    seen = h.seen;
    sides = canvas-on_image t e pr.world.scene.gl ∙ h.sides;
    buffers = buffers-on_image t e pr.world.scene.gl ∙ h.buffers;
    images = images-on_image t e pr.world.scene.gl ∙ ap (loaded t e) h.images;
    timer = h.timer;
    follows = h.follows;
    rests = h.rests;
  }

  pub run-Shows :
      (is : List (Input p)) (s : Pose p) (pr : Program p)
      → AllHonest is
      → Shows s pr
      → Holds (Shows (pose_of size is s)) (run 6 is pr)
  unfolding run
  run-Shows [] s pr honest h = h
  run-Shows (i ∷ is) s pr (honest, rest) h =
      bind-Holds (Shows (pose_after size i s)) (Shows (pose_of size (i ∷ is) s)) (on_input 6 i pr) _
        (on_input-Shows s i pr honest h) λ pr' k. run-Shows is (pose_after size i s) pr' rest k

  pub frame_paints :
      (s : Pose p) (input : FrameInput p) (pr pr' : Program p)
      → Shows s pr
      → on_input 6 (frame input) pr ≡ ok pr'
      → Drawn s input pr pr'
  unfolding on_input
  frame_paints s input pr pr' h drawn =
      subst (Holds (Drawn s input pr)) drawn (draw_scene-Shows s input pr h)
