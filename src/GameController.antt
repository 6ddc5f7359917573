-- ===== src/GameController.antt =====
-- Computergrafik/src/keyboard/gamecontroller.ts: `class GameController`, which moves a camera. A
-- gamepad is named by its index; what it reads at the moment is the browser's answer.
pub mod Connection
pub mod Axes
use fhmuenster.Base.{
  ℕ, zero, suc, ◌+◌, Bool, true, false, Option, none, some, List, [], ◌∷◌, ◌==◌, if◌then◌else◌,
}
use fhmuenster.Platform.{Platform}
use fhmuenster.Camera.{Camera, get_camera_matrix, set_camera_matrix}

-- An entry of `buttons`: an object, or a number in older browsers.
pub data Button (R : Type 0) : Type 0 where
  object : (pressed : Bool) → (value : R) → Button R
  number : R → Button R

pub record Reading (R : Type 0) : Type 0 where
  pub buttons : List (Button R)
  pub axes : List R

-- `gp`: `connected` is undefined at first, and `controller` is null or deleted without a gamepad.
pub record GameController : Type 0 where
  pub connected : Option Bool
  pub controller : Option ℕ

-- `navigator.getGamepads()[i]`, where `present i` says whether there is one.
abbrev pub get_gamepad : (present : ℕ → Bool) → ℕ → Option ℕ
get_gamepad present i = if present i then some i else none

-- The constructor with `registerEvents`.
unfoldable pub new_game_controller : (present : ℕ → Bool) → GameController
new_game_controller present = record { connected = none; controller = get_gamepad present 0 }

unfoldable pub connect_handler : (present : ℕ → Bool) → ℕ → GameController → GameController
connect_handler present i gp = record gp {
  controller = get_gamepad present i;
  connected = some true;
}

disconnect_at : Option ℕ → ℕ → GameController → Option GameController
disconnect_at none i gp = none
disconnect_at (some j) i gp =
    some (if j == i then record { connected = some false; controller = none } else gp)

-- `none` is the TypeError at `this.controller.index` when there is no controller.
unfoldable pub disconnect_handler : ℕ → GameController → Option GameController
unfolding disconnect_at
disconnect_handler i gp = disconnect_at gp.controller i gp

unfoldable pub is_connected : GameController → Bool
is_connected gp = elim gp.connected [ none ↦ false | some b ↦ b ]

-- Element `i` of an array of numbers, used as a number.
abbrev pub number_at : (p : Platform) → List p.R → ℕ → p.R
number_at p [] i = p.nan
number_at p (x ∷ xs) zero = x
number_at p (x ∷ xs) (suc i) = number_at p xs i

abbrev pub is_pressed : {R : Type 0} → Button R → Bool
is_pressed (object pressed value) = pressed
is_pressed (number value) = false

module _ {p : Platform} where
  open p use {R, of_ℕ, decimal, mul, div, neg, translate, rotate_x, rotate_y, rotate_z, vec3}

  unfoldable pub button_action : ℕ → Camera p → Camera p
  button_action i c =
      let c1 =
        (if i == 5
          then record c { camera_matrix = rotate_z c.camera_matrix (neg (decimal 1 1)) }
          else c) in
      if i == 4 then record c1 { camera_matrix = rotate_z c1.camera_matrix (decimal 1 1) } else c1

  unfoldable pub axes_action : List R → Camera p → Camera p
  axes_action axes c =
      let m1 =
        translate (get_camera_matrix c) (
          vec3 (mul (number_at p axes 0) (of_ℕ 10)) (of_ℕ 0)
            (mul (number_at p axes 1) (of_ℕ 10))) in
      let m2 = rotate_y m1 (div (neg (number_at p axes 3)) (of_ℕ 10)) in
      let m3 = rotate_x m2 (div (neg (number_at p axes 4)) (of_ℕ 10)) in set_camera_matrix m3 c

  -- `controller.buttons.forEach`, from the button `i`.
  unfoldable pub button_actions : List (Button R) → ℕ → Camera p → Camera p
  unfolding button_action
  button_actions [] i c = c
  button_actions (b ∷ bs) i c =
      button_actions bs (i + 1) (if is_pressed b then button_action i c else c)

  update_at : Option ℕ → (ℕ → Reading R) → Camera p → Option (Camera p)
  unfolding button_actions axes_action
  update_at none read c = none
  update_at (some i) read c = some (axes_action (read i).axes (button_actions (read i).buttons 0 c))

  -- `none` is the TypeError at `controller.buttons`.
  unfoldable pub update_status : GameController → (ℕ → Reading R) → Camera p → Option (Camera p)
  unfolding is_connected update_at
  update_status gp read c = if is_connected gp then update_at gp.controller read c else some c
