-- ===== src/Examples/Exact.antt =====
-- The theorems that need exact arithmetic, on matrices that count: how far a point has moved along
-- the first axis and how far it has turned, both integers.
use mathlib.Core.Path.{ap₂}
use mathlib.Core.Int.{
  ℤ, pos, negsuc, ◌*ℤ◌, *ℤ_comm, *ℤ-negsuc, zero-*ℤ, neg_ℤ-neg_ℤ, neg_ℤ-+ℤ, +ℤ_comm, +ℤ_invr,
  +ℤ_idl, +ℤ_assoc, ◌+ℤ◌, neg_ℤ, suc_ℤ, +ℤ-neg_ℤ_cancel,
}
use mathlib.Core.Nat.{ℕ as Nat, zero as zero', suc as suc'}
use fhmuenster.Base.{ℕ, zero, suc, ◌≡◌, refl, sym, ◌∙◌, ap, Bool, true, false, some, [], ◌∷◌}
use fhmuenster.Platform.{Platform}
use fhmuenster.WebGl.{Gl, ◌▷◌, uniform_matrix4, projection_matrix}
use fhmuenster.WebGlStart.{get_instance}
use fhmuenster.Camera
use fhmuenster.Camera.{new_camera}
use fhmuenster.Camera.View.{IsIdle, draw-at_rest}
use fhmuenster.CubeNode.{new_cube_node}
use fhmuenster.CubeNode.Normals.{IsExact, normals, outward, side, new_cube_node-outward}
use fhmuenster.Orbit.{new_orbit, turn}
use fhmuenster.Planet.{new_planet}
use fhmuenster.Planet.Spin.{Turns, spins, spins-new_planet}
use fhmuenster.Orbit.Circle.{TranslateCancels, draws, rotate_all, turns, draws-new_orbit}

abbrev whole : ℕ → ℤ
whole zero = pos zero'
whole (suc n) = suc_ℤ (whole n)

abbrev is_zero : ℤ → Bool
is_zero (pos zero') = true
is_zero _ = false

abbrev Motion : Type 0
Motion = record { moved : ℤ; turned : ℤ }

abbrev exact : Platform
exact = record {
  R = ℤ;
  of_ℕ = whole;
  decimal = λ m k. whole m;
  fround = λ a. a;
  is_zero = is_zero;
  add = ◌+ℤ◌;
  sub = λ a b. a +ℤ neg_ℤ b;
  mul = ◌*ℤ◌;
  div = λ a b. a;
  rem = λ a b. a;
  neg = neg_ℤ;
  sin = λ a. a;
  cos = λ a. a;
  pi = whole 3;
  nan = whole 0;
  Mat4 = Motion;
  Mat3 = Motion;
  create = record { moved = whole 0; turned = whole 0 };
  multiply = λ m n. record { moved = m.moved +ℤ n.moved; turned = m.turned +ℤ n.turned };
  translate = λ m v. record m { moved = m.moved +ℤ v.x };
  rotate_x = λ m a. record m { turned = m.turned +ℤ a };
  rotate_y = λ m a. record m { turned = m.turned +ℤ a };
  rotate_z = λ m a. record m { turned = m.turned +ℤ a };
  perspective = λ a b c d. record { moved = a; turned = b };
  invert = λ m. some (record { moved = neg_ℤ m.moved; turned = neg_ℤ m.turned });
  normal_from_mat4 = λ m. some m;
  transform = λ m v. v;
  vec4 = λ a b c d. record { x = a; y = b; z = c; w = d };
  vec3 = λ a b c. record { x = a; y = b; z = c };
  subtract3 = λ a b. record { x = a.x +ℤ neg_ℤ b.x; y = a.y +ℤ neg_ℤ b.y; z = a.z +ℤ neg_ℤ b.z };
  cross3 = λ a b. record {
    x = a.y *ℤ b.z +ℤ neg_ℤ (a.z *ℤ b.y);
    y = a.z *ℤ b.x +ℤ neg_ℤ (a.x *ℤ b.z);
    z = a.x *ℤ b.y +ℤ neg_ℤ (a.y *ℤ b.x);
  };
  inner_width = whole 4;
  inner_height = whole 3;
  links = true;
}

exact-IsIdle : IsIdle exact
exact-IsIdle = record {
  translate_zero = λ m. refl;
  rotate_x_zero = λ m. refl;
  rotate_y_zero = λ m. refl;
  rotate_z_zero = λ m. refl;
}

exact-TranslateCancels : TranslateCancels exact
exact-TranslateCancels m r = ap (λ (x : ℤ). record m { moved = x }) (+ℤ-neg_ℤ_cancel m.moved r)

abbrev page : Gl exact
page = record {
  started = true;
  width = whole 4;
  height = whole 3;
  buffers = 0;
  textures = 0;
  log = [];
}

-- The camera's projection after a draw: the lens, moved back by the position of the camera.
abbrev seen : Motion
seen =
    exact.multiply
      (exact.perspective (exact.rem (exact.div exact.pi (whole 2)) exact.pi)
        (exact.div page.width page.height) (whole 1) (whole 1000))
      (record { moved = neg_ℤ (whole 0); turned = neg_ℤ (whole 0) })

abbrev c' : Camera.Camera exact
c' = record {
  fov_radian = exact.div exact.pi (whole 2);
  projection = some seen;
  camera_position = record { x = whole 0; y = whole 0; z = whole 100 };
  camera_matrix = record { moved = whole 0; turned = whole 0 };
  speeds = Camera.at_rest exact;
}

draw-at_rest_example : c'.camera_matrix ≡ (new_camera exact).camera_matrix
unfolding Camera.draw new_camera get_instance
draw-at_rest_example =
    draw-at_rest exact-IsIdle (new_camera exact) c' page
      (page ▷ uniform_matrix4 projection_matrix seen) refl refl

draws-new_orbit_example :
    let (o, trafo) = new_orbit exact (whole 6) (whole 5) (whole 27) in
    draws exact o (whole 1 ∷ whole 2 ∷ []) trafo
    ≡ exact.translate
        (rotate_all exact
          (turns exact (whole 27) (whole 1 ∷ whole 2 ∷ []))
          (exact.rotate_z exact.create o.tilt_rad))
        (exact.vec3 (whole 6) (whole 0) (whole 0))
draws-new_orbit_example =
    draws-new_orbit exact exact-TranslateCancels (whole 6) (whole 5) (whole 27)
      (whole 1 ∷ whole 2 ∷ []) refl

+ℤ_middle : (a b c d : ℤ) → (a +ℤ b) +ℤ (c +ℤ d) ≡ (a +ℤ c) +ℤ (b +ℤ d)
+ℤ_middle a b c d =
    +ℤ_assoc a b (c +ℤ d)
    ∙ ap (λ x. a +ℤ x) (sym (+ℤ_assoc b c d) ∙ ap (λ x. x +ℤ d) (+ℤ_comm b c) ∙ +ℤ_assoc c b d)
    ∙ sym (+ℤ_assoc a c (b +ℤ d))

+ℤ-*ℤ-pos : (a b : ℤ) (n : Nat) → (a +ℤ b) *ℤ pos n ≡ a *ℤ pos n +ℤ b *ℤ pos n
+ℤ-*ℤ-pos a b zero' = refl
+ℤ-*ℤ-pos a b (suc' n) =
    ap (λ x. x +ℤ (a +ℤ b)) (+ℤ-*ℤ-pos a b n) ∙ +ℤ_middle (a *ℤ pos n) (b *ℤ pos n) a b

+ℤ-*ℤ : (a b k : ℤ) → (a +ℤ b) *ℤ k ≡ a *ℤ k +ℤ b *ℤ k
+ℤ-*ℤ a b (pos n) = +ℤ-*ℤ-pos a b n
+ℤ-*ℤ a b (negsuc n) =
    *ℤ-negsuc (a +ℤ b) n
    ∙ ap neg_ℤ (+ℤ-*ℤ-pos a b (suc' n))
    ∙ neg_ℤ-+ℤ (a *ℤ pos (suc' n)) (b *ℤ pos (suc' n))
    ∙ sym (ap₂ ◌+ℤ◌ (*ℤ-negsuc a n) (*ℤ-negsuc b n))

exact-Turns : Turns exact
exact-Turns = record {
  add_div = λ a b c. refl;
  add_mul = +ℤ-*ℤ;
  rotate_add = λ m a b. ap (λ (x : ℤ). record m { turned = x }) (+ℤ_assoc m.turned a b);
}

spins-new_planet_example :
    let (o, trafo) = new_planet exact (whole 23) (whole 5) in
    spins exact o (whole 1 ∷ whole 2 ∷ whole 4 ∷ []) trafo
    ≡ exact.rotate_y (exact.rotate_z exact.create o.tilt_rad) (turn exact (whole 7) (whole 5))
spins-new_planet_example =
    spins-new_planet exact exact-Turns (whole 23) (whole 5) (whole 1) (whole 2 ∷ whole 4 ∷ [])

*ℤ-neg_ℤ : (m k : ℤ) → m *ℤ neg_ℤ k ≡ neg_ℤ (m *ℤ k)
*ℤ-neg_ℤ m (pos zero') = refl
*ℤ-neg_ℤ m (pos (suc' n)) = *ℤ-negsuc m n
*ℤ-neg_ℤ m (negsuc n) = sym (ap neg_ℤ (*ℤ-negsuc m n) ∙ neg_ℤ-neg_ℤ _)

exact-IsExact : IsExact exact
exact-IsExact = record {
  vec3_parts = λ a b c. refl;
  subtract3_parts = λ u v. refl;
  cross3_parts = λ u v. refl;
  sub_self = +ℤ_invr;
  sub_zero = λ a. refl;
  zero_sub = λ a. +ℤ_idl (neg_ℤ a);
  sub_swap = λ a b.
      +ℤ_comm b (neg_ℤ a) ∙ sym (neg_ℤ-+ℤ a (neg_ℤ b) ∙ ap (λ t. neg_ℤ a +ℤ t) (neg_ℤ-neg_ℤ b));
  mul_zero = λ a. refl;
  zero_mul = zero-*ℤ;
  mul_neg = *ℤ-neg_ℤ;
  neg_mul = λ a b. *ℤ_comm (neg_ℤ a) b ∙ *ℤ-neg_ℤ b a ∙ ap neg_ℤ (*ℤ_comm b a);
  neg_neg = neg_ℤ-neg_ℤ;
}

new_cube_node-outward_example :
    normals exact (new_cube_node (whole 1) (whole 2) (whole 3) page).0.squares
    ≡ outward exact (side exact (whole 1)) (side exact (whole 2)) (side exact (whole 3))
new_cube_node-outward_example =
    new_cube_node-outward exact exact-IsExact (whole 1) (whole 2) (whole 3) page
