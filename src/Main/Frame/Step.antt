-- ===== src/Main/Frame/Step.antt =====
-- One of the browser's inputs, a frame or an event, in a set of motions.
use mathlib.Core.Path.{subst}
use fhmuenster.Base.{
  if_both, ℕ, ◌<◌, ◌≡◌, ◌==◌, refl, sym, Option, some, [], ◌∷◌, length, arith, All,
}
use fhmuenster.Platform.{Platform}
use fhmuenster.WebGl.{◌▷◌, viewport, clear, request_animation_frame}
use fhmuenster.WebGlStart.{get_instance}
use fhmuenster.Camera.Keys.{on_key}
use fhmuenster.Timer.{Timer, days_passed}
use fhmuenster.GameController.{update_status}
use fhmuenster.GameController.Connection.{
  Follows, on_event-Follows, update_status-Follows, moved_by,
}
use fhmuenster.MatrixStack.View.{view, IsAllocated}
use fhmuenster.SgNode.{Scene}
use fhmuenster.Scenegraph
use fhmuenster.Scenegraph.{
  World, Result, ok, throw, type_error, range_error, ◌>>=◌, or_throw, new_stack, draw_traversal,
}
use fhmuenster.Scenegraph.Depth.{shape, IsRanked, SoundOutcome, draw_traversal-SoundOutcome}
use fhmuenster.Scenegraph.Motions.{Motions, IsSound}
use fhmuenster.Main.Frame.Steer.{SoundReading, on_key-SoundCamera, moved_by-SoundCamera}
use fhmuenster.Main.Frame.{
  Program, FrameInput, Input, frame, key, gamepad, image, fuel, draw_scene, on_input,
}
use fhmuenster.Main.Frame.Shape.{edges, rank, edges-IsRanked}
use fhmuenster.Main.Frame.Ready.{after, SoundInput, SoundReady, SoundResult, with_camera-IsSound}

module _ {p : Platform} where
  -- The end of `drawScene`.
  drawn_program : Program p → Timer p → World p → Program p
  drawn_program pr timer drawn =
      let shown = drawn.scene in
      record pr {
        world = record drawn { scene = record shown { gl = shown.gl ▷ request_animation_frame } };
        timer = timer;
      }

module _ {p : Platform} (L : Motions p) where
  -- A whole frame: the stack and the graph are as before it.
  draw_outcome :
      (days : p.R) (w : World p)
      → L.IsNumber days
      → All (IsSound L) w.scene.nodes
      → shape w.scene ≡ edges
      → view w.matrices ≡ p.create ∷ []
      → IsAllocated w.matrices
      → SoundOutcome L edges (p.create ∷ []) (Scenegraph.draw fuel 6 days w)
  unfolding Scenegraph.draw
  draw_outcome days w d sound h e a =
      subst (λ sh. SoundOutcome L sh (p.create ∷ []) (draw_traversal days fuel 6 w)) h
        (draw_traversal-SoundOutcome L days rank fuel 6 w p.create [] d L.create_motion sound
          (subst (λ sh. IsRanked sh rank) (sym h) edges-IsRanked)
          (subst (λ sh. 6 < length sh) (sym h) (omega arith)) (omega arith) a e)

  days_passed-IsNumber :
      (first second : ℕ) (t : Timer p)
      → L.IsNumber t.days_per_sec
      → L.IsNumber (days_passed first second t).0
        × L.IsNumber (days_passed first second t).1.days_per_sec
  unfolding days_passed
  days_passed-IsNumber first second t n =
      if_both (λ (r : p.R × Timer p). L.IsNumber r.0 × L.IsNumber r.1.days_per_sec)
        (t.last_date == 0) (L.of_ℕ_number 0, n)
        (
          L.mul_number _ _ n (
              L.div_number _ _ (L.sub_number _ _ (L.of_ℕ_number first) (L.of_ℕ_number t.last_date))
                (L.of_ℕ_number 1000) (L.of_ℕ_non_zero 1000 (omega arith))),
          n,
        )

  drawn-SoundResult :
      (current : Option ℕ) (pr : Program p) (timer : Timer p) (r : Result (World p))
      → Follows pr.controller current
      → L.IsNumber timer.days_per_sec
      → SoundOutcome L edges (p.create ∷ []) r
      → SoundResult L current (r >>= λ drawn. ok (drawn_program pr timer drawn))
  unfolding drawn_program
  drawn-SoundResult current pr timer (ok w) f n (graph, sound, stack, allocated) =
      (record { graph = graph; stack = stack; allocated = allocated; follows = f }, sound, n)
  drawn-SoundResult current pr timer (throw type_error) f n o = o
  drawn-SoundResult current pr timer (throw range_error) f n o = o

  draw_scene-SoundResult :
      (current : Option ℕ) (input : FrameInput p) (pr : Program p)
      → SoundReading L current input.read
      → SoundReady L current pr
      → SoundResult L current (draw_scene 6 input pr)
  unfolding draw_scene drawn_program
  draw_scene-SoundResult current input pr reading (ready, sound, n) =
      let g = get_instance pr.world.scene.gl in
      let s0 : Scene p = record pr.world.scene { gl = g ▷ viewport g.width g.height ▷ clear } in
      let (s, steered, graph, sound') =
        with_camera-IsSound L (update_status pr.controller input.read) s0 ready.graph sound (λ c h.
          (
            moved_by current input.read c,
            update_status-Follows current pr.controller input.read c ready.follows,
            moved_by-SoundCamera L current input.read c reading h,
          )) in
      let (days, per_sec) = days_passed-IsNumber input.first input.second pr.timer n in
      rw steered (
        drawn-SoundResult current pr (days_passed input.first input.second pr.timer).1 _
          ready.follows per_sec
          (draw_outcome (days_passed input.first input.second pr.timer).0
            (record pr.world { scene = s }) days sound' graph ready.stack ready.allocated))

  -- An input between two frames, or a frame.
  pub on_input-SoundResult :
      (i : Input p) (current : Option ℕ) (pr : Program p)
      → SoundInput L current i
      → SoundReady L current pr
      → SoundResult L (after i current) (on_input 6 i pr)
  unfolding on_input
  on_input-SoundResult (frame input) current pr h ready =
      draw_scene-SoundResult current input pr h ready
  on_input-SoundResult (key e) current pr h (ready, sound, n) =
      let (s, pressed, graph, sound') =
        with_camera-IsSound L (λ c. some (on_key e c)) pr.world.scene ready.graph sound
          (λ c m. (on_key e c, refl, on_key-SoundCamera L e c m)) in
      rw pressed (
        record {
          graph = graph;
          stack = ready.stack;
          allocated = ready.allocated;
          follows = ready.follows;
        },
        sound',
        n,
      )
  on_input-SoundResult (gamepad e) current pr h (ready, sound, n) = (
    record {
      graph = ready.graph;
      stack = ready.stack;
      allocated = ready.allocated;
      follows = on_event-Follows e current pr.controller h ready.follows;
    },
    sound,
    n,
  )
  on_input-SoundResult (image t e) current pr h (ready, sound, n) = (
    record {
      graph = ready.graph;
      stack = ready.stack;
      allocated = ready.allocated;
      follows = ready.follows;
    },
    sound,
    n,
  )
