-- ===== src/Main/Frame/Pose.antt =====
-- What the inputs of Computergrafik/src/szenegraph/index.ts make of the time, the camera, the
-- gamepad in use, the light and the textures, without the scene.
use fhmuenster.Base.{◌==◌, if◌then◌else◌, some, ℕ, Option, none, List, [], ◌∷◌}
use fhmuenster.Platform.{Platform}
use fhmuenster.Timer.{Timer, new_timer, days_passed}
use fhmuenster.Camera.{Camera, new_camera}
use fhmuenster.Camera.Keys.{on_key}
use fhmuenster.GameController.{Reading}
use fhmuenster.GameController.Connection.{in_use, moved_by}
use fhmuenster.WebGl.{Gl}
use fhmuenster.WebGl.Bindings.{image_of}
use fhmuenster.Texture.{Texture, ImageEvent, onload, onerror}
use fhmuenster.Light.{Light, update_position}
use fhmuenster.Main.Setup.Courses
use fhmuenster.Main.Setup.Courses.{place_of}
use fhmuenster.Main.Setup.Painting.{lamp_of}
use fhmuenster.Scenegraph.Painting.{shot}
use fhmuenster.Main.Frame.{Input, frame, key, gamepad, image}

-- The timer, the days that the frames have drawn for, the latest first, the camera, the gamepad in
-- use, the light, and the image that each texture holds.
pub record Pose (p : Platform) : Type 0 where
  pub timer : Timer p
  pub days : List p.R
  pub eye : Camera p
  pub pad : Option ℕ
  pub lamp : Light p
  pub images : ℕ → Option ℕ

-- At the script's end.
abbrev pub first_pose : (p : Platform) (now : ℕ) → Gl p → Pose p
first_pose p now g = record {
  timer = new_timer (p.of_ℕ 3) now;
  days = [];
  eye = new_camera p;
  pad = none;
  lamp = lamp_of p g;
  images = λ t. image_of t g.log;
}

-- Only the end of a loading changes a texture, its own.
abbrev pub loaded : Texture → ImageEvent → (ℕ → Option ℕ) → ℕ → Option ℕ
loaded x onload images t = if x.texture == t then some x.image else images t
loaded x onerror images t = images t

module _ {p : Platform} where
  -- The camera with which a frame draws, on a canvas of these sides.
  abbrev pub look : (size : p.R × p.R) → (ℕ → Reading p.R) → Pose p → Camera p
  look size read s = shot size (moved_by s.pad read s.eye)

  -- The light with which a frame draws: at its place below the sun.
  abbrev pub shone : Pose p → Light p
  shone s = update_position (p.multiply (place_of [] (Courses.sun p) s.days) p.create) s.lamp

  abbrev pub pose_after : (size : p.R × p.R) → Input p → Pose p → Pose p
  pose_after size (frame input) s =
      let (passed, timer') = days_passed input.first input.second s.timer in
      record {
        timer = timer';
        days = passed ∷ s.days;
        eye = look size input.read s;
        pad = s.pad;
        lamp = shone s;
        images = s.images;
      }
  pose_after size (key e) s = record s { eye = on_key e s.eye }
  pose_after size (gamepad e) s = record s { pad = in_use s.pad (e ∷ []) }
  pose_after size (image t e) s = record s { images = loaded t e s.images }

  abbrev pub pose_of : (size : p.R × p.R) → List (Input p) → Pose p → Pose p
  pose_of size [] s = s
  pose_of size (i ∷ is) s = pose_of size is (pose_after size i s)
