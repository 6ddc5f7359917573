-- ===== src/Framerate.antt =====
-- Computergrafik/src/szenegraph/framerate.ts: `class Framerate`, a singleton that measures the
-- time between two animation frames.
pub mod Loop
use fhmuenster.Base.{ℕ, zero, suc, ◌+◌, Bool, true, false, if◌then◌else◌}
use fhmuenster.Platform.{Platform}

-- The static fields, whether `instance` is set, and the number of requested animation frames that
-- have not run yet.
pub record Framerate (p : Platform) : Type 0 where
  pub ftime : p.R
  pub last_frame_time : p.R
  pub instance' : Bool
  pub pending : ℕ

module _ {p : Platform} where
  open p use {R, of_ℕ, sub, div}

  unfoldable pub start : R → Framerate p → Framerate p
  start time f = record f {
    ftime = div (sub time f.last_frame_time) (of_ℕ 1000);
    last_frame_time = time;
    pending = f.pending + 1;
  }

  -- `if (!Framerate.instance) Framerate.instance = new Framerate()`, with the constructor.
  unfoldable pub get_instance : Framerate p → Framerate p
  unfolding start
  get_instance f =
      if f.instance'
      then f
      else record (start (of_ℕ 0) (record f { last_frame_time = of_ℕ 0 })) { instance' = true }

  run_pending : R → ℕ → Framerate p → Framerate p
  unfolding start
  run_pending time zero f = f
  run_pending time (suc n) f = start time (record f { pending = n })

  -- The browser runs one requested callback, `start`, at `time`.
  pub animation_frame : R → Framerate p → Framerate p
  unfolding run_pending
  animation_frame time f = run_pending time f.pending f
