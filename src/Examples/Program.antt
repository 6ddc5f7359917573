-- ===== src/Examples/Program.antt =====
-- The theorem on runs of the whole program.
use fhmuenster.Base.{refl, true, false, some, List, [], ◌∷◌}
use fhmuenster.Platform.Symbolic.{symbolic, whole}
use fhmuenster.Camera.Keys.{keydown, keyup}
use fhmuenster.GameController.Connection.{connected}
use fhmuenster.Texture.{onload}
use fhmuenster.Main.Frame.{Input, frame, key, gamepad, image, new_program}
use fhmuenster.Main.Frame.Ready.{GoesOn}
use fhmuenster.Main.Frame.Run.{run, new_program-run}
use fhmuenster.Examples.Data.{blank}

abbrev inputs : List (Input symbolic)
inputs =
    frame (record { first = 20; second = 21; read = λ i. record { buttons = []; axes = [] } })
    ∷ key (keydown "w")
    ∷ gamepad (connected (λ i. true) 2)
    ∷ image (record { texture = 3; image = 1 }) onload
    ∷ frame (record {
      first = 36;
      second = 36;
      read = λ i. record { buttons = []; axes = whole 1 ∷ whole 0 ∷ [] };
    })
    ∷ key (keyup "w")
    ∷ []

new_program-run_example :
    let (m, pr) = new_program symbolic 5 (λ i. false) blank in
    GoesOn (some 2) (run m.camera_id inputs pr)
new_program-run_example =
    new_program-run symbolic 5 (λ i. false) blank inputs (tt, (tt, (refl, (tt, (tt, (tt, tt))))))
