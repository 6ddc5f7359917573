-- ===== src/Camera/Keys.antt =====
-- The keys of `class Camera`: the speeds after any sequence of key events.
use Prim.Native.String.{String}
use mathlib.Core.Path.{subst}
use text.Mathlib.Text.{◌==◌ as str_eq}
use text.Mathlib.TextEquality.{eq_iff}
use fhmuenster.Base.{
  ◌≡◌, refl, ◌∙◌, ap, sym, Bool-cases, inl, inr, false, List, [], ◌∷◌, if◌then◌else◌,
}
use fhmuenster.Platform.{Platform}
use fhmuenster.Camera.{
  Speeds, Camera, new_camera, press_arrow, press_letter, rotate_speeds, rotate, key_down, key_up,
}

pub data KeyEvent : Type 0 where
  keydown keyup : String → KeyEvent

module _ {p : Platform} where
  -- The two listeners, for one event and for a sequence of them, earliest first.
  unfoldable pub on_key : KeyEvent → Camera p → Camera p
  unfolding key_down key_up
  on_key (keydown key) c = key_down key c
  on_key (keyup key) c = key_up key c

  unfoldable pub on_keys : List KeyEvent → Camera p → Camera p
  unfolding on_key
  on_keys [] c = c
  on_keys (e ∷ es) c = on_keys es (on_key e c)

abbrev with_speeds : {p : Platform} → Camera p → Speeds p.R → Camera p
with_speeds c s = record c { speeds = s }

-- The keys pressed since a key was last released, latest first.
abbrev pub pressed : List String → List KeyEvent → List String
pressed keys [] = keys
pressed keys (keydown key ∷ es) = pressed (key ∷ keys) es
pressed keys (keyup key ∷ es) = pressed [] es

-- The speed on one axis: that of the latest pressed key which `plus` or `minus` names.
abbrev pub axis : {R : Type 0} (plus minus : String) (up down rest : R) → List String → R
axis plus minus up down rest [] = rest
axis plus minus up down rest (key ∷ keys) =
    if str_eq key plus
    then up
    else if str_eq key minus
    then down
    else axis plus minus up down rest keys

-- A statement about a key holds if it holds of one key, and of those that are told from it.
by_key :
    (name : String) (P : String → Type 0)
    → P name
    → (key : String) → (str_eq key name ≡ false → P key)
    → P key
by_key name P h key other = elim (Bool-cases (str_eq key name)) [
  | inl same ↦ subst P (sym ((eq_iff key name).0 same)) h
  | inr apart ↦ other apart
]

module _ (p : Platform) where
  open p use {R, of_ℕ, decimal, neg}

  -- The speeds that a list of pressed keys stands for.
  abbrev pub speeds_of : List String → Speeds R
  speeds_of keys = record {
    x = axis "w" "s" (neg (decimal 5 2)) (decimal 5 2) (of_ℕ 0) keys;
    y = axis "a" "d" (decimal 5 2) (neg (decimal 5 2)) (of_ℕ 0) keys;
    z = axis "q" "e" (decimal 5 2) (neg (decimal 5 2)) (of_ℕ 0) keys;
    px = axis "ArrowLeft" "ArrowRight" (neg (of_ℕ 10)) (of_ℕ 10) (of_ℕ 0) keys;
    pz = axis "ArrowDown" "ArrowUp" (of_ℕ 10) (neg (of_ℕ 10)) (of_ℕ 0) keys;
  }

  Presses : List String → String → Type 0
  Presses keys key = rotate_speeds p key 1 (speeds_of keys) ≡ speeds_of (key ∷ keys)

  press_speeds : (key : String) (keys : List String) → Presses keys key
  unfolding Presses rotate_speeds press_arrow press_letter
  press_speeds key keys =
      let P = Presses keys in
      by_key "ArrowDown" P refl key λ n0. by_key "ArrowUp" P refl key λ n1.
        by_key "ArrowLeft" P refl key λ n2. by_key "ArrowRight" P refl key λ n3.
          by_key "w" P refl key λ n4. by_key "a" P refl key λ n5. by_key "s" P refl key λ n6.
            by_key "d" P refl key λ n7.
              by_key "q" P refl key
                λ n8. by_key "e" P refl key λ n9. simp (n0, n1, n2, n3, n4, n5, n6, n7, n8, n9)

module _ {p : Platform} where
  on_key-pressed :
      (e : KeyEvent) (keys : List String) (c : Camera p)
      → c.speeds ≡ speeds_of p keys
      → on_key e c ≡ record c { speeds = speeds_of p (pressed keys (e ∷ [])) }
  unfolding on_key key_down key_up rotate Presses
  on_key-pressed (keydown key) keys c h =
      ap (λ (s : Speeds p.R). with_speeds c s)
        (ap (rotate_speeds p key 1) h ∙ press_speeds p key keys)
  on_key-pressed (keyup key) keys c h = unfold rotate_speeds in refl

  -- If the speeds are those of some pressed keys, then after any events they are those of the keys
  -- pressed since a key was last released, and the rest of the camera is as it was.
  pub on_keys-pressed :
      (es : List KeyEvent) (keys : List String) (c : Camera p)
      → c.speeds ≡ speeds_of p keys
      → on_keys es c ≡ record c { speeds = speeds_of p (pressed keys es) }
  unfolding on_keys
  on_keys-pressed [] keys c h = ap (with_speeds c) h
  on_keys-pressed (keydown key ∷ es) keys c h =
      ap (on_keys es) (on_key-pressed (keydown key) keys c h)
      ∙ on_keys-pressed es (key ∷ keys) (with_speeds c (speeds_of p (key ∷ keys))) refl
  on_keys-pressed (keyup key ∷ es) keys c h =
      ap (on_keys es) (on_key-pressed (keyup key) keys c h)
      ∙ on_keys-pressed es [] (with_speeds c (speeds_of p [])) refl

-- After any sequence of key events the camera is a new camera, but for its speeds: on each axis
-- the speed is that of the key of this axis pressed last since a key (any key) was last released,
-- and 0 if there is none.
pub new_camera-keys :
    (p : Platform) (es : List KeyEvent)
    → on_keys es (new_camera p) ≡ record (new_camera p) { speeds = speeds_of p (pressed [] es) }
new_camera-keys p es = on_keys-pressed es [] (new_camera p) (unfold new_camera in refl)
