-- ===== src/Main/Frame/Ready.antt =====
-- What holds of the program between two of the browser's inputs, and at the script's end.
use mathlib.Core.Path.{subst}
use mathlib.Core.Option.{some-injective}
use fhmuenster.Base.{
  ℕ, zero, suc, ◌≡◌, refl, sym, ap, ◌∙◌, Bool, true, Option, none, some, List, [], ◌∷◌, get_elem?,
  map, All, All-get_elem?, All-set,
}
use fhmuenster.Platform.{Platform}
use fhmuenster.WebGl.{Gl}
use fhmuenster.Timer.{new_timer}
use fhmuenster.Camera.{Camera}
use fhmuenster.GameController.Connection
use fhmuenster.GameController.Connection.{
  Follows, IsPresent, in_use, new_game_controller-Follows, on_event-Follows, update_status-Follows,
  moved_by,
}
use fhmuenster.MatrixStack.View.{view, IsAllocated, push_lem}
use fhmuenster.SgNode.{Kind, Node, Scene, camera}
use fhmuenster.Scenegraph.{Result, ok, throw, type_error, range_error, new_stack}
use fhmuenster.Scenegraph.Depth.{shape, outline, is_camera, map-set}
use fhmuenster.Scenegraph.Motions.{Motions, NonSingular, IsSound, SoundKind, SoundCamera}
use fhmuenster.Main.Frame.Steer.{SoundReading}
use fhmuenster.Main.Setup.Sound.{make_scene-IsSound}
use fhmuenster.Main.Frame.{
  Program, Input, frame, gamepad, as_camera, camera_of, put_camera, with_camera, new_program,
}
use fhmuenster.Main.Frame.Shape.{edges, make_scene-edges}

-- Between two frames: the graph of the solar system, one matrix on the stack, and a controller
-- that follows the gamepad in use.
pub record IsReady {p : Platform} (current : Option ℕ) (pr : Program p) : Type 0 where
  pub graph : shape pr.world.scene ≡ edges
  pub stack : view pr.world.matrices ≡ p.create ∷ []
  pub allocated : IsAllocated pr.world.matrices
  pub follows : Follows pr.controller current

-- The gamepad in use after an input.
abbrev pub after : {p : Platform} → Input p → Option ℕ → Option ℕ
after (gamepad e) current = in_use current (e ∷ [])
after _ current = current

-- A gamepad that announces itself is present.
abbrev pub IsHonest : {p : Platform} → Input p → Type 0
IsHonest (gamepad e) = IsPresent e
IsHonest _ = Unit

-- The program goes on, or it threw a TypeError and some matrix is singular.
abbrev pub GoesOn : {p : Platform} → Option ℕ → Result (Program p) → Type 0
GoesOn current (ok pr) = IsReady current pr
GoesOn {p} current (throw type_error) = ¬ NonSingular p
GoesOn current (throw range_error) = ⊥

module _ {p : Platform} (L : Motions p) where
  -- In a set of motions, the camera reads numbers of the set from the gamepad in use.
  abbrev pub SoundInput : Option ℕ → Input p → Type 0
  SoundInput current (frame input) = SoundReading L current input.read
  SoundInput current i = IsHonest i

  -- Between two frames, with every node in the set of motions.
  abbrev pub SoundReady : Option ℕ → Program p → Type 0
  SoundReady current pr =
      IsReady current pr × All (IsSound L) pr.world.scene.nodes × L.IsNumber pr.timer.days_per_sec

  -- The program goes on, or it threw a TypeError and the set of motions has a failure.
  abbrev pub SoundResult : Option ℕ → Result (Program p) → Type 0
  SoundResult current (ok pr) = SoundReady current pr
  SoundResult current (throw type_error) = L.Failure
  SoundResult current (throw range_error) = ⊥

  pub new_program-SoundReady :
      (now : ℕ) (present : ℕ → Bool) (g : Gl p)
      → SoundReady none (new_program p now present g).1
        × ((new_program p now present g).0.camera_id ≡ 6)
  unfolding new_program new_timer Connection.on_events
  new_program-SoundReady now present g =
      let (graph, root) = make_scene-edges p g in
      (
        (
          record {
            graph = graph;
            stack = unfold new_stack in (push_lem p.create _ tt).1;
            allocated = unfold new_stack in (push_lem p.create _ tt).0;
            follows = new_game_controller-Follows present [] tt;
          },
          make_scene-IsSound L g,
          L.of_ℕ_number 3,
        ),
        root,
      )

module _ {p : Platform} where
  is_camera-true :
      (n : Node p) (k : Kind p)
      → is_camera k ≡ true
      → (c : Camera p) × (as_camera n k ≡ some (n, c)) × (k ≡ camera c)
  is_camera-true n (camera c) h = (c, refl, refl)
  is_camera-true n k h = cc

  -- The node that the edges name as a camera.
  pub camera_at :
      (ns : List (Node p)) (i : ℕ) {cs : List ℕ}
      → get_elem? (map outline ns) i ≡ some (cs, true)
      → (n : Node p) × (c : Camera p) × (camera_of (get_elem? ns i) ≡ some (n, c))
        × (get_elem? ns i ≡ some n)
        × (n.kind ≡ camera c)
        × (is_camera n.kind ≡ true)
  camera_at [] i h = cc
  camera_at (n ∷ ns) zero h =
      let tag : is_camera n.kind ≡ true = ap (λ o. o.1) (some-injective _ _ h) in
      let (c, found, kind) = is_camera-true n n.kind tag in (n, c, found, refl, kind, tag)
  camera_at (n ∷ ns) (suc i) h = camera_at ns i h

  -- A method that does not throw leaves the graph as it is, and sound nodes sound where it leaves
  -- a sound camera sound.
  pub with_camera-IsSound :
      (L : Motions p) (method : Camera p → Option (Camera p)) (s : Scene p)
      → shape s ≡ edges
      → All (IsSound L) s.nodes
      → ((c : Camera p)
          → SoundCamera L c
          → (c' : Camera p) × (method c ≡ some c') × SoundCamera L c')
      → (s' : Scene p) × (with_camera 6 method s ≡ ok s')
        × (shape s' ≡ edges)
        × All (IsSound L) s'.nodes
  unfolding with_camera
  with_camera-IsSound L method s h sound total =
      let (n, c, found, at, kind, tag) = camera_at s.nodes 6 (ap (λ t. get_elem? t 6) h) in
      let (motion, here) = All-get_elem? (IsSound L) s.nodes 6 sound at in
      let (c', done, sound') = total c (subst (SoundKind L) kind here) in
      (
        put_camera 6 n s c',
        rw (found, done) refl,
        map-set outline s.nodes 6 at (ap (λ b. (n.children, b)) (sym tag)) ∙ h,
        All-set (IsSound L) s.nodes 6 (record n { kind = camera c' }) sound (motion, sound'),
      )
