-- ===== src/Main/Frame.antt =====
-- Computergrafik/src/szenegraph/index.ts: the program's state once the scene is built, `drawScene`,
-- and the browser's events between two frames.
pub mod Shape
pub mod Steer
pub mod Ready
pub mod Step
pub mod Run
pub mod Spoiled
pub mod Requests
pub mod Pose
pub mod Painting
pub mod Files
pub mod Supply
use Prim.Native.String.{String}
use fhmuenster.Base.{ℕ, Bool, Option, none, some, [], get_elem?, set}
use fhmuenster.Platform.{Platform}
use fhmuenster.WebGl.{Gl, ◌▷◌, viewport, clear, request_animation_frame}
use fhmuenster.WebGlStart.{get_instance}
use fhmuenster.Camera.{Camera}
use fhmuenster.Camera.Keys.{KeyEvent, on_key}
use fhmuenster.Texture.{Texture, ImageEvent, on_image}
use fhmuenster.GameController.{GameController, Reading, new_game_controller, update_status}
use fhmuenster.GameController.Connection
use fhmuenster.GameController.Connection.{GamepadEvent}
use fhmuenster.SgNode.{Kind, Node, Scene, camera}
use fhmuenster.Scenegraph
use fhmuenster.Scenegraph.{World, Result, ok, throw, type_error, ◌>>=◌, or_throw, new_stack}
use fhmuenster.Timer.{Timer, new_timer, days_passed}
use fhmuenster.Main.Setup.{Palette, make_scene}

pub record Program (p : Platform) : Type 0 where
  pub world : World p
  pub timer : Timer p
  pub controller : GameController

-- What one frame reads from the browser: the clock twice, and the gamepads.
pub record FrameInput (p : Platform) : Type 0 where
  pub first : ℕ
  pub second : ℕ
  pub read : ℕ → Reading p.R

-- An animation frame, or an event between two of them.
pub data Input (p : Platform) : Type 0 where
  frame : FrameInput p → Input p
  key : KeyEvent → Input p
  gamepad : GamepadEvent → Input p
  image : Texture → ImageEvent → Input p

-- The graph is at most six nodes deep.
abbrev pub fuel : ℕ
fuel = 8

module _ {p : Platform} where
  abbrev pub as_camera : Node p → Kind p → Option (Node p × Camera p)
  as_camera n (camera c) = some (n, c)
  as_camera n k = none

  abbrev pub camera_of : Option (Node p) → Option (Node p × Camera p)
  camera_of none = none
  camera_of (some n) = as_camera n n.kind

  abbrev pub put_camera : ℕ → Node p → Scene p → Camera p → Scene p
  put_camera id n s c = record s { nodes = set s.nodes id (record n { kind = camera c }) }

  -- The variable `camera`, used at one of its methods.
  unfoldable pub with_camera : ℕ → (Camera p → Option (Camera p)) → Scene p → Result (Scene p)
  with_camera id method s = do
    found ← or_throw (camera_of (get_elem? s.nodes id))
    c ← or_throw (method found.1)
    ok (put_camera id found.0 s c)

  unfoldable pub draw_scene : (camera_id : ℕ) → FrameInput p → Program p → Result (Program p)
  draw_scene camera_id input pr = do
    let (time, timer) = days_passed input.first input.second pr.timer
    let g = get_instance pr.world.scene.gl
    let scene = record pr.world.scene { gl = g ▷ viewport g.width g.height ▷ clear }
    steered ← with_camera camera_id (update_status pr.controller input.read) scene
    drawn ← Scenegraph.draw fuel camera_id time (record pr.world { scene = steered })
    let shown = drawn.scene
    ok (record pr {
      world = record drawn { scene = record shown { gl = shown.gl ▷ request_animation_frame } };
      timer = timer;
    })

  unfoldable pub on_input : (camera_id : ℕ) → Input p → Program p → Result (Program p)
  on_input camera_id (frame input) pr = draw_scene camera_id input pr
  on_input camera_id (key e) pr = do
    scene ← with_camera camera_id (λ c. some (on_key e c)) pr.world.scene
    ok (record pr { world = record pr.world { scene = scene } })
  on_input camera_id (gamepad e) pr =
      ok (record pr { controller = Connection.on_event e pr.controller })
  on_input camera_id (image t e) pr =
      let scene = pr.world.scene in
      ok (record pr {
        world = record pr.world { scene = record scene { gl = on_image t e scene.gl } };
      })

-- The script: the timer, the scene and the controller, `new Scenegraph(camera)`, and the request for
-- the first frame. The result is the camera's node with the program.
unfoldable pub new_program :
    (p : Platform) (now : ℕ) (present : ℕ → Bool) → Gl p → Palette × Program p
new_program p now present g =
    let (m, s) = make_scene p (record { nodes = []; gl = g }) in
    (
      m,
      record {
        world = record {
          scene = record s { gl = s.gl ▷ request_animation_frame };
          matrices = new_stack p p.create;
        };
        timer = new_timer (p.of_ℕ 3) now;
        controller = new_game_controller present;
      },
    )
