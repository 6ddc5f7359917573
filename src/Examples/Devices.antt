-- ===== src/Examples/Devices.antt =====
-- The theorems on keys, gamepads, clocks and images.
use fhmuenster.Base.{
  ℕ, suc, ◌+◌, ◌≤◌, ◌≡◌, refl, ◌⊎◌, true, false, some, none, List, [], ◌∷◌, map, arith, ◌==◌,
}
use fhmuenster.Platform.Symbolic.{Number, Matrix, symbolic, whole}
use fhmuenster.WebGl.{
  Gl, Call, uniform_matrix4, projection_matrix, bind_texture, tex_image, console_log, console_warn,
  mag_linear, min_nearest, wrap_s_clamp, wrap_t_clamp,
}
use fhmuenster.WebGl.Bindings.{bound_texture, image_of}
use fhmuenster.Camera.{Camera, new_camera}
use fhmuenster.Camera.Keys.{KeyEvent, keydown, keyup, on_keys, pressed, speeds_of, new_camera-keys}
use fhmuenster.Camera.Course.{lens, course, draws, draws-course}
use fhmuenster.GameController.{Reading, object, new_game_controller, update_status}
use fhmuenster.GameController.Connection.{
  GamepadEvent, connected, disconnected, on_events, Follows, moved_by, new_game_controller-Follows,
  update_status-in_use,
}
use fhmuenster.Timer.{new_timer}
use fhmuenster.Timer.Elapsed.{frames, days_of, frames-stretches}
use fhmuenster.Framerate.{Framerate}
use fhmuenster.Framerate.Loop
use fhmuenster.Framerate.Loop.{ask, frame, asks, IsLooping, on_events-IsLooping, on_events-ftime}
use fhmuenster.Texture
use fhmuenster.Texture.{Texture, onload, onerror, on_image}
use fhmuenster.Texture.Upload.{parameters, on_image-upload}
use fhmuenster.Examples.Data.{blank}

abbrev typed : List KeyEvent
typed = keydown "w" ∷ keydown "ArrowUp" ∷ keyup "w" ∷ keydown "q" ∷ keydown "e" ∷ []

-- The release of `w` stopped the arrow key too, and `e` came after `q`.
typed_keys : pressed [] typed ≡ "e" ∷ "q" ∷ []
typed_keys = refl

new_camera-keys_example :
    on_keys typed (new_camera symbolic)
    ≡ record (new_camera symbolic) { speeds = speeds_of symbolic ("e" ∷ "q" ∷ []) }
new_camera-keys_example = new_camera-keys symbolic typed

abbrev turning : Camera symbolic
turning = record (new_camera symbolic) { speeds = speeds_of symbolic ("e" ∷ "q" ∷ []) }

draws-course_example :
    ((draws 3 turning blank ≡ none)
      × ((k : ℕ) × (k ≤ 2)
          × (symbolic.invert (course symbolic turning.speeds (suc k) turning.camera_matrix)
              ≡ none)))
    ⊎ ((view : Matrix) × (c' : Camera symbolic) × (g' : Gl symbolic) × (log : List (Call symbolic))
        × (draws 3 turning blank ≡ some (c', g'))
        × (symbolic.invert (course symbolic turning.speeds 3 turning.camera_matrix) ≡ some view)
        × (c'.camera_matrix ≡ course symbolic turning.speeds 3 turning.camera_matrix)
        × (c'.speeds ≡ turning.speeds)
        × (c'.fov_radian ≡ turning.fov_radian)
        × (g'.log
            ≡ uniform_matrix4 projection_matrix
                (symbolic.multiply (lens symbolic turning.fov_radian g'.width g'.height) view)
              ∷ log))
draws-course_example = draws-course 2 turning blank

abbrev pads : List GamepadEvent
pads = connected (λ i. i == 1) 1 ∷ connected (λ i. true) 0 ∷ disconnected 1 ∷ []

new_game_controller-Follows_example :
    Follows (on_events pads (new_game_controller λ i. false)) (some 0)
new_game_controller-Follows_example =
    new_game_controller-Follows (λ i. false) pads (refl, (refl, (tt, tt)))

abbrev reading : ℕ → Reading Number
reading i = record {
  buttons = object true (whole 1) ∷ [];
  axes = whole i ∷ whole 2 ∷ whole 3 ∷ whole 4 ∷ [];
}

update_status-in_use_example :
    update_status (on_events pads (new_game_controller λ i. false)) reading (new_camera symbolic)
    ≡ some (moved_by (some 0) reading (new_camera symbolic))
update_status-in_use_example =
    update_status-in_use {p = symbolic} (λ i. false) pads reading (new_camera symbolic)
      (refl, (refl, (tt, tt)))

frames-stretches_example :
    (frames (new_timer {p = symbolic} (whole 3) 5) ((8, 9) ∷ (12, 12) ∷ [])
      ≡ map (days_of symbolic (whole 3)) ((5, 8) ∷ (9, 12) ∷ []))
    × (◌≡◌ {A = ℕ} (6 + 1 + 5) 12)
frames-stretches_example =
    frames-stretches symbolic (whole 3) 5 ((8, 9) ∷ (12, 12) ∷ []) (omega arith) (omega arith)
      (omega arith)

abbrev idle : Framerate symbolic
idle = record { ftime = whole 0; last_frame_time = whole 0; instance' = false; pending = 0 }

abbrev looping : Framerate symbolic
looping = record { ftime = whole 0; last_frame_time = whole 0; instance' = true; pending = 1 }

on_events-IsLooping_example :
    IsLooping (Loop.on_events (frame (whole 1) ∷ ask ∷ frame (whole 2) ∷ ask ∷ []) idle)
on_events-IsLooping_example =
    on_events-IsLooping (frame (whole 1) ∷ ask ∷ frame (whole 2) ∷ ask ∷ []) idle refl

on_events-ftime_example :
    let f' = Loop.on_events (frame (whole 16) ∷ ask ∷ frame (whole 33) ∷ []) looping in
    (f'.ftime ≡ symbolic.div (symbolic.sub (whole 33) (whole 16)) (whole 1000))
    × (f'.last_frame_time ≡ whole 33)
on_events-ftime_example = on_events-ftime 1 (whole 16) (whole 33) looping refl refl

abbrev picture : Texture
picture = record { texture = 4; image = 7 }

on_image-upload_example :
    ((log : List (Call symbolic)) × ((on_image picture onload blank).log
        ≡ console_log ∷ bind_texture none ∷ tex_image 7 ∷ log)
      × (bound_texture log ≡ some 4)
      × (parameters log ≡ wrap_t_clamp ∷ wrap_s_clamp ∷ min_nearest ∷ mag_linear ∷ []))
    × (bound_texture (on_image picture onload blank).log ≡ none)
    × (image_of 4 (on_image picture onload blank).log ≡ some 7)
    × (image_of 5 (on_image picture onload blank).log ≡ none)
    × ((on_image picture onerror blank).log ≡ console_warn ∷ [])
    × (bound_texture (Texture.draw picture blank).log ≡ some 4)
on_image-upload_example = on_image-upload picture 5 blank blank (omega arith)
