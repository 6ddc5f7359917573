-- ===== src/Scenegraph/Motions.antt =====
-- Sets of numbers and matrices closed under what the program computes, and the nodes of a scene
-- that keep to them.
use mathlib.Core.Path.{subst}
use fhmuenster.Base.{
  ℕ, ◌<◌, ◌≡◌, sym, inl, inr, ◌≢◌, false, Option, none, some, List, [], ◌∷◌, Bool-cases, All,
}
use fhmuenster.Platform.{Platform}
use fhmuenster.WebGl.{Gl}
use fhmuenster.Camera
use fhmuenster.Camera.{Camera, Speeds, moved}
use fhmuenster.Camera.View.{draw_view}
use fhmuenster.Orbit
use fhmuenster.Orbit.{Orbit, turn}
use fhmuenster.Planet
use fhmuenster.Planet.{Planet}
use fhmuenster.SgNode.{
  Kind, Node, draw_kind, drawn_camera, update_light, camera, orbit, planet, light,
}

-- A set of numbers and a set of matrices, closed under what the program does with them; where one
-- of the matrices is singular there is a `Failure`.
pub record Motions (p : Platform) : Type 1 where
  pub IsNumber : p.R → Type 0
  pub IsNonZero : p.R → Type 0
  pub of_ℕ_number : (n : ℕ) → IsNumber (p.of_ℕ n)
  pub decimal_number : (m k : ℕ) → IsNumber (p.decimal m k)
  pub pi_number : IsNumber p.pi
  pub neg_number : (a : p.R) → IsNumber a → IsNumber (p.neg a)
  pub sub_number : (a b : p.R) → IsNumber a → IsNumber b → IsNumber (p.sub a b)
  pub mul_number : (a b : p.R) → IsNumber a → IsNumber b → IsNumber (p.mul a b)
  pub div_number : (a b : p.R) → IsNumber a → IsNumber b → IsNonZero b → IsNumber (p.div a b)
  pub of_ℕ_non_zero : (n : ℕ) → 0 < n → IsNonZero (p.of_ℕ n)
  pub decimal_non_zero : (m k : ℕ) → 0 < m → IsNonZero (p.decimal m k)
  pub tested_non_zero : (a : p.R) → IsNumber a → p.is_zero a ≡ false → IsNonZero a
  pub IsMotion : p.Mat4 → Type 0
  pub create_motion : IsMotion p.create
  pub multiply_motion : (m n : p.Mat4) → IsMotion m → IsMotion n → IsMotion (p.multiply m n)
  pub translate_motion :
      (m : p.Mat4) (a b c : p.R)
      → IsMotion m
      → IsNumber a
      → IsNumber b
      → IsNumber c
      → IsMotion (p.translate m (p.vec3 a b c))
  pub rotate_x_motion : (m : p.Mat4) (a : p.R) → IsMotion m → IsNumber a → IsMotion (p.rotate_x m a)
  pub rotate_y_motion : (m : p.Mat4) (a : p.R) → IsMotion m → IsNumber a → IsMotion (p.rotate_y m a)
  pub rotate_z_motion : (m : p.Mat4) (a : p.R) → IsMotion m → IsNumber a → IsMotion (p.rotate_z m a)
  pub Failure : Type 0
  pub no_normal : (m : p.Mat4) → IsMotion m → p.normal_from_mat4 m ≡ none → Failure
  pub no_inverse : (m : p.Mat4) → IsMotion m → p.invert m ≡ none → Failure

-- No matrix is singular.
abbrev pub NonSingular : Platform → Type 0
NonSingular p = (m : p.Mat4) → (p.normal_from_mat4 m ≢ none) × (p.invert m ≢ none)

-- The set of all numbers and matrices.
abbrev pub everything : (p : Platform) → Motions p
everything p = record {
  IsNumber = λ a. Unit;
  IsNonZero = λ a. Unit;
  of_ℕ_number = λ n. tt;
  decimal_number = λ m k. tt;
  pi_number = tt;
  neg_number = λ a h. tt;
  sub_number = λ a b h k. tt;
  mul_number = λ a b h k. tt;
  div_number = λ a b h k l. tt;
  of_ℕ_non_zero = λ n h. tt;
  decimal_non_zero = λ m k h. tt;
  tested_non_zero = λ a h k. tt;
  IsMotion = λ m. Unit;
  create_motion = tt;
  multiply_motion = λ m n h k. tt;
  translate_motion = λ m a b c h i j k. tt;
  rotate_x_motion = λ m a h k. tt;
  rotate_y_motion = λ m a h k. tt;
  rotate_z_motion = λ m a h k. tt;
  Failure = ¬ NonSingular p;
  no_normal = λ m h e solid. (solid m).0 e;
  no_inverse = λ m h e solid. (solid m).1 e;
}

module _ {p : Platform} (L : Motions p) where
  open L use {IsNumber, IsNonZero, IsMotion, Failure}

  pub record SoundSpeeds (s : Speeds p.R) : Type 0 where
    pub x_number : IsNumber s.x
    pub y_number : IsNumber s.y
    pub z_number : IsNumber s.z
    pub px_number : IsNumber s.px
    pub pz_number : IsNumber s.pz

  abbrev pub SoundCamera : Camera p → Type 0
  SoundCamera c = IsMotion c.camera_matrix × SoundSpeeds c.speeds

  abbrev pub SoundKind : Kind p → Type 0
  SoundKind (camera c) = SoundCamera c
  SoundKind (orbit o) = IsNumber o.radius × IsNumber o.circulation
  SoundKind (planet o) = IsNumber o.rotation_period × IsNonZero o.rotation_period
  SoundKind _ = Unit

  abbrev pub IsSound : Node p → Type 0
  IsSound n = IsMotion n.trafo × SoundKind n.kind

  moved_motion : (c : Camera p) → SoundCamera c → IsMotion (moved c)
  unfolding moved
  moved_motion c (m, s) =
      let zero_number = L.of_ℕ_number 0 in
      L.rotate_z_motion _ _
        (L.rotate_y_motion _ _
          (L.rotate_x_motion _ _ (L.translate_motion _ _ _ _ m s.px_number zero_number s.pz_number)
            s.x_number)
          s.y_number)
        s.z_number

  turn-IsNumber :
      (days period : p.R)
      → IsNumber days
      → IsNumber period
      → IsNonZero period
      → IsNumber (turn p days period)
  turn-IsNumber days period d n z =
      L.mul_number _ _ (L.mul_number _ _ (L.div_number _ _ d n z) (L.of_ℕ_number 2)) L.pi_number

  Orbit-draw_motion :
      (o : Orbit p) (days : p.R) (t : p.Mat4)
      → IsNumber days
      → IsNumber o.radius
      → IsNumber o.circulation
      → IsMotion t
      → IsMotion (Orbit.draw p o days t)
  unfolding Orbit.draw
  Orbit-draw_motion o days t d r c m = elim (Bool-cases (p.is_zero o.circulation)) [
    | inl still ↦ rw still m
    | inr turning ↦ rw turning (
        let zero_number = L.of_ℕ_number 0 in
        L.translate_motion _ _ _ _
          (L.rotate_y_motion _ _
            (L.translate_motion _ _ _ _ m (L.neg_number _ r) zero_number zero_number)
            (turn-IsNumber days o.circulation d c (L.tested_non_zero _ c turning)))
          r zero_number zero_number)
  ]

  pub update_light-SoundKind :
      (world : p.Mat4) (k : Kind p) → SoundKind k → SoundKind (update_light world k)
  unfolding update_light
  update_light-SoundKind world (light l) h = tt
  update_light-SoundKind world k h = h

  -- What `node.draw` leaves: a sound kind and matrix, or a failure.
  abbrev pub SoundDrawn : Option (Kind p × p.Mat4 × Gl p) → Type 0
  SoundDrawn none = Failure
  SoundDrawn (some (k, t, g)) = SoundKind k × IsMotion t

  drawn_camera-SoundDrawn :
      (c : Camera p) (t : p.Mat4) (g : Gl p)
      → SoundCamera c
      → IsMotion t
      → SoundDrawn (drawn_camera t (Camera.draw c g))
  drawn_camera-SoundDrawn c t g h m = elim (draw_view c g) [
    | inl (threw, singular) ↦ rw threw (L.no_inverse _ (moved_motion c h) singular)
    | inr (view, c', g', drawn, regular, matrix, speeds, fov, log) ↦
        rw drawn
          ((subst IsMotion (sym matrix) (moved_motion c h), subst SoundSpeeds (sym speeds) h.1), m)
  ]

  pub draw_kind-SoundDrawn :
      (days : p.R) (k : Kind p) (t : p.Mat4) (g : Gl p)
      → IsNumber days
      → SoundKind k
      → IsMotion t
      → SoundDrawn (draw_kind days k t g)
  unfolding draw_kind Planet.draw
  draw_kind-SoundDrawn days (camera c) t g d h m = drawn_camera-SoundDrawn c t g h m
  draw_kind-SoundDrawn days (orbit o) t g d (r, c) m = ((r, c), Orbit-draw_motion o days t d r c m)
  draw_kind-SoundDrawn days (planet o) t g d (n, z) m =
      ((n, z), L.rotate_y_motion _ _ m (turn-IsNumber days o.rotation_period d n z))
  draw_kind-SoundDrawn days k t g d h m = (tt, m)

pub All-everything : {p : Platform} (ns : List (Node p)) → All (IsSound (everything p)) ns
All-everything [] = tt
All-everything (n ∷ ns) = ((tt, kind n.kind), All-everything ns)
  where
    kind : {p : Platform} (k : Kind p) → SoundKind (everything p) k
    kind (camera c) =
        (tt, record { x_number = tt; y_number = tt; z_number = tt; px_number = tt; pz_number = tt })
    kind (orbit o) = (tt, tt)
    kind (planet o) = (tt, tt)
    kind k = tt
