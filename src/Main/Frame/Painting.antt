-- ===== src/Main/Frame/Painting.antt =====
-- Where and in which paint a frame draws each body of the solar system.
pub mod Walk
pub mod Solar
pub mod Images
pub mod Picture
use mathlib.Core.Path.{subst}
use mathlib.Core.Option.{some-injective}
use fhmuenster.Base.{
  length, arith, ◌*◌, ℕ, ◌+◌, ◌≡◌, refl, sym, ap, ◌∙◌, Bool, Option, none, some, List, [], ◌∷◌,
  ◌++◌,
}
use fhmuenster.Platform.{Platform, Vec4}
use fhmuenster.WebGl.{Gl, ◌▷◌, viewport, clear}
use fhmuenster.WebGl.Paint.{canvas, current, painted, effect, effect-get_instance}
use fhmuenster.WebGlStart.{get_instance}
use fhmuenster.Texture.{Texture, ImageEvent, onload, onerror, on_image, load_texture}
use fhmuenster.Camera.{Camera}
use fhmuenster.Camera.Keys.{on_key}
use fhmuenster.GameController.{update_status}
use fhmuenster.GameController.Connection.{
  Follows, in_use, moved_by, on_event-Follows, update_status-Follows,
}
use fhmuenster.Timer.{days_passed}
use fhmuenster.SgNode.{Scene}
use fhmuenster.Scenegraph
use fhmuenster.Scenegraph.{World, Result, ok, throw, ◌>>=◌, or_throw, draw_traversal}
use fhmuenster.Scenegraph.Holds.{Holds, Holds-map, bind-Holds}
use fhmuenster.Scenegraph.Painting.{shot}
use fhmuenster.Scenegraph.Painting.Walk.{sights, stage, walk}
use fhmuenster.Main.Setup.Painting.{
  solar_sights, make_scene-sights, make_scene-canvas, make_scene-images,
}
use fhmuenster.Main.Frame.{
  Program, FrameInput, Input, frame, key, gamepad, image, fuel, with_camera, draw_scene, on_input,
  new_program,
}
use fhmuenster.Main.Frame.Pose.{Pose, first_pose, look, shone, pose_after, pose_of}
use fhmuenster.Main.Frame.Run.{run, after_all, AllSound, AllHonest, ok_of, new_program-SoundResult}
use fhmuenster.Main.Frame.Ready.{SoundReady, new_program-SoundReady}
use fhmuenster.Main.Frame.Requests.{frames}
use fhmuenster.Main.Frame.Step.{on_input-SoundResult}
use fhmuenster.Main.Frame.Steer.{SoundReading}
use fhmuenster.Scenegraph.Motions.{Motions, everything}
use fhmuenster.Main.Frame.Painting.Picture.{Shows, Drawn, run-Shows, frame_paints}
use fhmuenster.Main.Frame.Painting.Solar.{solar_paints, walk-solar_sights}
use fhmuenster.Main.Frame.Painting.Walk.{with_camera-Painted, Rests, draw_traversal-walk}

-- Sound inputs are honest.
sound_honest :
    {p : Platform} (L : Motions p) (is : List (Input p)) (current : Option ℕ)
    → AllSound L current is
    → AllHonest is
sound_honest L [] current h = tt
sound_honest L (frame input ∷ is) current (h, hs) = (tt, sound_honest L is current hs)
sound_honest L (key e ∷ is) current (h, hs) = (h, sound_honest L is current hs)
sound_honest L (gamepad e ∷ is) current (h, hs) =
    (h, sound_honest L is (in_use current (e ∷ [])) hs)
sound_honest L (image t e ∷ is) current (h, hs) = (h, sound_honest L is current hs)

new_program-Shows :
    {p : Platform} (now : ℕ) (present : ℕ → Bool) (g : Gl p)
    → Shows g.textures
        (canvas g)
        (new_program p now present g).1.world.scene.gl.buffers
        (first_pose p now g)
        (new_program p now present g).1
unfolding new_program
new_program-Shows {p} now present g =
    let ((ready, _, _), _) = new_program-SoundReady (everything p) now present g in
    record {
      seen = make_scene-sights p g;
      sides = make_scene-canvas p g;
      buffers = omega arith;
      images = make_scene-images p g;
      timer = refl;
      follows = ready.follows;
      rests = (ready.stack, ready.allocated);
    }

-- A frame adds its days.
length-days :
    {p : Platform} (size : p.R × p.R) (is : List (Input p)) (s : Pose p)
    → length (pose_of size is s).days ≡ frames is + length s.days
length-days size [] s = omega arith
length-days size (frame input ∷ is) s =
    omega (arith, length-days size is (pose_after size (frame input) s))
length-days size (key e ∷ is) s = length-days size is (pose_after size (key e) s)
length-days size (gamepad e ∷ is) s = length-days size is (pose_after size (gamepad e) s)
length-days size (image t e ∷ is) s = length-days size is (pose_after size (image t e) s)

-- After a run, the picture of the solar system.
pub new_program-shown :
    {p : Platform} (L : Motions p) (now : ℕ) (present : ℕ → Bool) (g : Gl p) (is : List (Input p))
    → ¬ L.Failure
    → AllSound L none is
    → let (m, start) = new_program p now present g in
      (pr : Program p) × (run m.camera_id is start ≡ ok pr)
      × SoundReady L (after_all is none) pr
      × Shows g.textures
          (canvas g)
          start.world.scene.gl.buffers
          (pose_of (canvas g) is (first_pose p now g))
          pr
new_program-shown {p} L now present g is n h =
    let (m, start) = new_program p now present g in
    let root = (new_program-SoundReady L now present g).1 in
    let made = start.world.scene.gl.buffers in
    let (pr, ran, ready) =
      ok_of L (after_all is none) (run m.camera_id is start) n
        (new_program-SoundResult L now present g is h) in
    let pose = pose_of (canvas g) is (first_pose p now g) in
    (
      pr,
      ran,
      ready,
      subst (Holds (Shows g.textures (canvas g) made pose))
          (subst (λ id. run id is start ≡ ok pr) root ran)
          (run-Shows g.textures (canvas g) made is (first_pose p now g) start
            (sound_honest L is none h) (new_program-Shows now present g)),
    )

module _ {p : Platform} (L : Motions p) where
  -- In a set of motions that has no failure, from the script's end on, after any animation frames,
  -- key, gamepad and image events in any order, the next frame draws every body of the solar system
  -- with its own texture, which holds the image that was loaded into it last, if any, and the
  -- material that the script gave it last, in the order sun, earth, moon, mars, neptune, uranus,
  -- venus, mercury, saturn and jupiter: one draw call for a sphere, twelve for the moon, and no
  -- other. At each of these draw calls the model-view matrix is the product, in this order, of two
  -- identity matrices, the matrices of the orbits above the body and of its own, that of its planet
  -- and an identity matrix, where the orbits and the planet have their constructors' matrices
  -- turned for each earlier frame by the days that the timer made of that frame's clock; the
  -- frame's own days turn them after it has drawn. The normal matrix is the one of that product.
  -- The projection is the lens of the camera's field of view and the canvas's sides times the
  -- inverse of the camera's matrix, which starts as the constructor sets it and is moved, in each
  -- earlier frame and in this one, by the readings of the gamepad in use and then by the speeds
  -- that the keys have set. All but the sun are drawn with the script's white light, whose position
  -- the model-view matrix of the sun, times an identity matrix, takes to the world; the sun comes
  -- first, with the light's uniforms that were in force before the frame. A gamepad has to be
  -- present when it announces itself, and in each frame the four axes that are read of the gamepad
  -- in use have to be numbers of the set.
  pub new_program-paints :
      (now : ℕ) (present : ℕ → Bool) (g : Gl p) (is : List (Input p)) (input : FrameInput p)
      → ¬ L.Failure
      → AllSound L none is
      → SoundReading L (after_all is none) input.read
      → let (m, start) = new_program p now present g in
        let pose = pose_of (canvas g) is (first_pose p now g) in
        (pr : Program p) × (pr' : Program p) × (run m.camera_id is start ≡ ok pr)
        × (on_input m.camera_id (frame input) pr ≡ ok pr')
        × (painted pr'.world.scene.gl.log
            ≡ solar_paints g.textures
                (current pr.world.scene.gl.log).light
                (shone pose)
                (look (canvas g) input.read pose).projection
                pose.images
                pose.days
              ++ painted pr.world.scene.gl.log)
  new_program-paints now present g is input n h reading =
      let (m, start) = new_program p now present g in
      let root = (new_program-SoundReady L now present g).1 in
      let (pr, ran, ready, shows) = new_program-shown L now present g is n h in
      let (pr', drawn, _) =
        ok_of L (after_all is none) (on_input 6 (frame input) pr) n
          (on_input-SoundResult L (frame input) (after_all is none) pr reading ready) in
      let pose = pose_of (canvas g) is (first_pose p now g) in
      let made = start.world.scene.gl.buffers in
      let picture = frame_paints g.textures (canvas g) made pose input pr pr' shows drawn in
      (
        pr,
        pr',
        ran,
        subst (λ id. on_input id (frame input) pr ≡ ok pr') (sym root) drawn,
        picture.paints,
      )

  -- In a set of motions that has no failure, from the script's end on, over any animation frames,
  -- key, gamepad and image events in any order, the program goes on, and has twelve buffers more than
  -- at the script's end for each frame. A gamepad has to be present when it announces itself, and in
  -- each frame the four axes that are read of the gamepad in use have to be numbers of the set.
  pub new_program-buffers :
      (now : ℕ) (present : ℕ → Bool) (g : Gl p) (is : List (Input p))
      → ¬ L.Failure
      → AllSound L none is
      → let (m, start) = new_program p now present g in
        (pr : Program p) × (run m.camera_id is start ≡ ok pr)
        × (pr.world.scene.gl.buffers ≡ start.world.scene.gl.buffers + 12 * frames is)
  new_program-buffers now present g is n h =
      let (pr, ran, _, shows) = new_program-shown L now present g is n h in
      (pr, ran, omega (arith, shows.buffers, length-days (canvas g) is (first_pose p now g)))
