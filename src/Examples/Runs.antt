-- ===== src/Examples/Runs.antt =====
-- The theorems on runs that reckon with NaN.
use fhmuenster.Base.{◌+◌, ◌++◌, ℕ, ◌≡◌, refl, arith, true, false, some, List, [], ◌∷◌}
use fhmuenster.WebGl.{Gl}
use fhmuenster.Camera.Keys.{keydown}
use fhmuenster.GameController.{Reading}
use fhmuenster.GameController.Connection.{connected}
use fhmuenster.Scenegraph.{ok, throw, type_error}
use fhmuenster.Main.Frame.{
  FrameInput, Input, on_input, Program, frame, key, gamepad, image, new_program,
}
use fhmuenster.Main.Frame.Ready.{IsReady}
use fhmuenster.Main.Frame.Run.{run, new_program_goes_on}
use fhmuenster.Main.Frame.Requests.{asked, new_program-frames}
use fhmuenster.WebGl.Paint.{canvas, current, painted}
use fhmuenster.Main.Frame.Painting.{new_program-paints, new_program-buffers}
use fhmuenster.Main.Frame.Pose.{first_pose, look, shone, pose_of}
use fhmuenster.Main.Frame.Painting.Solar.{solar_paints}
use fhmuenster.WebGl.Bindings.{image_of}
use fhmuenster.Texture.{onload, onerror}
use fhmuenster.Main.Setup.Images.{sun_tex, borg}
use fhmuenster.Main.Setup.Dress.{dressed, files, planets, wrapped}
use fhmuenster.Main.Frame.Files.{new_program-files}
use fhmuenster.WebGl.Supply.{AllSupplied}
use fhmuenster.Main.Frame.Supply.{new_program-AllSupplied}
use fhmuenster.Main.Frame.Spoiled.{new_program-four_axes}
use fhmuenster.Examples.Numbers.{Value, nought, other, numeric, numeric-Motions, numeric-Spoils}

abbrev new_page : Gl numeric
new_page = record {
  started = false;
  width = nought;
  height = nought;
  buffers = 0;
  textures = 0;
  log = [];
}

abbrev five_axes : ℕ → Reading Value
five_axes i = record { buttons = []; axes = other ∷ nought ∷ nought ∷ other ∷ nought ∷ [] }

abbrev steered : List (Input numeric)
steered =
    key (keydown "w")
    ∷ frame (record { first = 20; second = 21; read = five_axes })
    ∷ gamepad (connected (λ i. true) 1)
    ∷ frame (record { first = 36; second = 37; read = five_axes })
    ∷ []

new_program_goes_on_example :
    (pr : Program numeric) × (run
        (new_program numeric 5 (λ i. false) new_page).0.camera_id
        steered
        (new_program numeric 5 (λ i. false) new_page).1
      ≡ ok pr)
    × IsReady (some 1) pr
new_program_goes_on_example =
    new_program_goes_on numeric-Motions 5 (λ i. false) new_page steered (λ h. h)
      (tt, (tt, (refl, ((tt, tt, tt, tt), tt))))

new_program-frames_example :
    (pr : Program numeric) × (run
        (new_program numeric 5 (λ i. false) new_page).0.camera_id
        steered
        (new_program numeric 5 (λ i. false) new_page).1
      ≡ ok pr)
    × (asked pr ≡ 3)
new_program-frames_example =
    new_program-frames numeric-Motions 5 (λ i. false) new_page steered (λ h. h)
      (tt, (tt, (refl, ((tt, tt, tt, tt), tt))))

new_program-paints_example :
    let (m, start) = new_program numeric 5 (λ i. false) new_page in
    let pose = pose_of (canvas new_page) steered (first_pose numeric 5 new_page) in
    (pr : Program numeric) × (pr' : Program numeric) × (run m.camera_id steered start ≡ ok pr)
    × (on_input m.camera_id (frame (record { first = 50; second = 50; read = five_axes })) pr
        ≡ ok pr')
    × (painted pr'.world.scene.gl.log
        ≡ solar_paints {p = numeric} 0
            (current pr.world.scene.gl.log).light
            (shone pose)
            (look (canvas new_page) five_axes pose).projection
            pose.images
            pose.days
          ++ painted pr.world.scene.gl.log)
new_program-paints_example =
    new_program-paints numeric-Motions 5 (λ i. false) new_page steered
      (record { first = 50; second = 50; read = five_axes }) (λ h. h)
      (tt, (tt, (refl, ((tt, tt, tt, tt), tt)))) (tt, tt, tt, tt)

new_program-buffers_example :
    let (m, start) = new_program numeric 5 (λ i. false) new_page in
    (pr : Program numeric) × (run m.camera_id steered start ≡ ok pr)
    × (pr.world.scene.gl.buffers ≡ start.world.scene.gl.buffers + 24)
new_program-buffers_example =
    new_program-buffers numeric-Motions 5 (λ i. false) new_page steered (λ h. h)
      (tt, (tt, (refl, ((tt, tt, tt, tt), tt))))

-- The file of the moon arrives between two frames; that of the sun fails to load.
abbrev pictured : List (Input numeric)
pictured =
    image (record { texture = 3; image = borg }) onload
    ∷ frame (record { first = 20; second = 21; read = five_axes })
    ∷ image (record { texture = 0; image = sun_tex }) onerror
    ∷ []

new_program-files_example :
    let (m, start) = new_program numeric 5 (λ i. false) new_page in
    let nodes = start.world.scene.nodes in
    (dressed nodes nodes ≡ wrapped numeric (λ i. i) 0 (planets numeric) files)
    × (pr : Program numeric) × (run m.camera_id pictured start ≡ ok pr)
    × (image_of 3 pr.world.scene.gl.log ≡ some borg)
new_program-files_example =
    new_program-files numeric-Motions 5 (λ i. false) new_page pictured 3 borg (λ h. h)
      (tt, (tt, (tt, tt))) ((3, borg, refl, refl), ((0, sun_tex, refl, refl), tt)) refl

new_program-AllSupplied_example :
    let (m, start) = new_program numeric 5 (λ i. false) new_page in
    (pr : Program numeric) × (run m.camera_id steered start ≡ ok pr)
    × AllSupplied pr.world.scene.gl.log
new_program-AllSupplied_example =
    new_program-AllSupplied numeric-Motions 5 (λ i. false) new_page steered (λ h. h)
      (tt, (tt, (refl, ((tt, tt, tt, tt), tt)))) tt

abbrev four_axes : FrameInput numeric
four_axes = record {
  first = 36;
  second = 37;
  read = λ i. record { buttons = []; axes = other ∷ nought ∷ nought ∷ nought ∷ [] };
}

new_program-four_axes_example :
    let (m, pr) = new_program numeric 5 (λ i. false) new_page in
    run m.camera_id
      (key (keydown "w") ∷ gamepad (connected (λ i. true) 1) ∷ frame four_axes ∷ [])
      pr
    ≡ throw type_error
new_program-four_axes_example =
    new_program-four_axes numeric numeric-Spoils 5 (λ i. false) new_page
      (key (keydown "w") ∷ gamepad (connected (λ i. true) 1) ∷ []) 1 four_axes (tt, (refl, tt)) refl
      (omega arith)
