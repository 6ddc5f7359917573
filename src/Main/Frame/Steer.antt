-- ===== src/Main/Frame/Steer.antt =====
-- What keys and gamepads do to a camera, in a set of motions.
use Prim.Native.String.{String}
use fhmuenster.Base.{if_both, ℕ, ◌+◌, ◌==◌, Option, none, some, List, [], ◌∷◌, arith}
use fhmuenster.Platform.{Platform}
use fhmuenster.Camera.{
  Speeds, Camera, at_rest, press_arrow, press_letter, rotate_speeds, rotate, key_down, key_up,
}
use fhmuenster.Camera.Keys.{KeyEvent, keydown, keyup, on_key}
use fhmuenster.GameController.{
  Button, Reading, number_at, is_pressed, button_action, button_actions, axes_action,
}
use fhmuenster.GameController.Connection.{moved_by}
use fhmuenster.Scenegraph.Motions.{Motions, SoundSpeeds, SoundCamera}

module _ {p : Platform} (L : Motions p) where
  open p use {R, of_ℕ, decimal, neg}
  open L use {IsNumber}

  -- Speeds after the change of one of them.
  abbrev Changed : (Speeds R → R → Speeds R) → Type 0
  Changed change =
      (s : Speeds R) (v : R) → SoundSpeeds L s → IsNumber v → SoundSpeeds L (change s v)

  set_x : Changed λ s v. record s { x = v }
  set_x s v h n = record {
    x_number = n;
    y_number = h.y_number;
    z_number = h.z_number;
    px_number = h.px_number;
    pz_number = h.pz_number;
  }

  set_y : Changed λ s v. record s { y = v }
  set_y s v h n = record {
    x_number = h.x_number;
    y_number = n;
    z_number = h.z_number;
    px_number = h.px_number;
    pz_number = h.pz_number;
  }

  set_z : Changed λ s v. record s { z = v }
  set_z s v h n = record {
    x_number = h.x_number;
    y_number = h.y_number;
    z_number = n;
    px_number = h.px_number;
    pz_number = h.pz_number;
  }

  set_px : Changed λ s v. record s { px = v }
  set_px s v h n = record {
    x_number = h.x_number;
    y_number = h.y_number;
    z_number = h.z_number;
    px_number = n;
    pz_number = h.pz_number;
  }

  set_pz : Changed λ s v. record s { pz = v }
  set_pz s v h n = record {
    x_number = h.x_number;
    y_number = h.y_number;
    z_number = h.z_number;
    px_number = h.px_number;
    pz_number = n;
  }

  at_rest-SoundSpeeds : SoundSpeeds L (at_rest p)
  at_rest-SoundSpeeds =
      let n = L.of_ℕ_number 0 in
      record { x_number = n; y_number = n; z_number = n; px_number = n; pz_number = n }

  press_arrow-SoundSpeeds :
      (code : String) (s : Speeds R) → SoundSpeeds L s → SoundSpeeds L (press_arrow p code s)
  unfolding press_arrow
  press_arrow-SoundSpeeds code s h =
      let ten = L.of_ℕ_number 10 in
      if_both (SoundSpeeds L) _ (set_pz s _ h ten) (
        if_both (SoundSpeeds L) _ (set_pz s _ h (L.neg_number _ ten)) (
          if_both (SoundSpeeds L) _ (set_px s _ h (L.neg_number _ ten))
            (if_both (SoundSpeeds L) _ (set_px s _ h ten) h)))

  press_letter-SoundSpeeds :
      (code : String) (s : Speeds R) → SoundSpeeds L s → SoundSpeeds L (press_letter p code s)
  unfolding press_letter
  press_letter-SoundSpeeds code s h =
      let up = L.decimal_number 5 2 in
      let down = L.neg_number _ up in
      if_both (SoundSpeeds L) _ (set_x s _ h down) (
        if_both (SoundSpeeds L) _ (set_y s _ h up) (
          if_both (SoundSpeeds L) _ (set_x s _ h up) (
            if_both (SoundSpeeds L) _ (set_y s _ h down) (
              if_both (SoundSpeeds L) _ (set_z s _ h up)
                (if_both (SoundSpeeds L) _ (set_z s _ h down) h)))))

  pub on_key-SoundCamera :
      (e : KeyEvent) (c : Camera p) → SoundCamera L c → SoundCamera L (on_key e c)
  unfolding on_key key_down key_up rotate rotate_speeds
  on_key-SoundCamera (keydown code) c (m, h) =
      (m, press_letter-SoundSpeeds code _ (press_arrow-SoundSpeeds code c.speeds h))
  on_key-SoundCamera (keyup code) c (m, h) = (m, at_rest-SoundSpeeds)

  button_action-SoundCamera :
      (i : ℕ) (c : Camera p) → SoundCamera L c → SoundCamera L (button_action i c)
  unfolding button_action
  button_action-SoundCamera i c (m, h) =
      let tenth = L.decimal_number 1 1 in
      let first =
        if_both (SoundCamera L) (i == 5) (L.rotate_z_motion _ _ m (L.neg_number _ tenth), h)
          (m, h) in
      if_both (SoundCamera L) (i == 4) (L.rotate_z_motion _ _ first.0 tenth, first.1) first

  button_actions-SoundCamera :
      (bs : List (Button R)) (i : ℕ) (c : Camera p)
      → SoundCamera L c
      → SoundCamera L (button_actions bs i c)
  unfolding button_actions
  button_actions-SoundCamera [] i c h = h
  button_actions-SoundCamera (b ∷ bs) i c h =
      button_actions-SoundCamera bs (i + 1) _
        (if_both (SoundCamera L) (is_pressed b) (button_action-SoundCamera i c h) h)

  -- The four axes that `axesAction` reads are numbers of the set.
  abbrev pub SoundAxes : List R → Type 0
  SoundAxes axes =
      IsNumber (number_at p axes 0)
      × IsNumber (number_at p axes 1)
      × IsNumber (number_at p axes 3)
      × IsNumber (number_at p axes 4)

  -- The same of the gamepad in use, if there is one.
  abbrev pub SoundReading : Option ℕ → (ℕ → Reading R) → Type 0
  SoundReading none read = Unit
  SoundReading (some i) read = SoundAxes (read i).axes

  pub moved_by-SoundCamera :
      (current : Option ℕ) (read : ℕ → Reading R) (c : Camera p)
      → SoundReading current read
      → SoundCamera L c
      → SoundCamera L (moved_by current read c)
  unfolding axes_action
  moved_by-SoundCamera none read c n h = h
  moved_by-SoundCamera (some i) read c (n0, n1, n3, n4) h =
      let (m, s) = button_actions-SoundCamera (read i).buttons 0 c h in
      let ten = L.of_ℕ_number 10 in
      let tenth = λ (a : R) (n : IsNumber a).
        L.div_number _ _ (L.neg_number a n) ten (L.of_ℕ_non_zero 10 (omega arith)) in
      (
        L.rotate_x_motion _ _
            (L.rotate_y_motion _ _
              (L.translate_motion _ _ _ _ m (L.mul_number _ _ n0 ten) (L.of_ℕ_number 0)
                (L.mul_number _ _ n1 ten))
              (tenth _ n3))
            (tenth _ n4),
        s,
      )
