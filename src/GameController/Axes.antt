-- ===== src/GameController/Axes.antt =====
-- Which axes `class GameController` reads.
use fhmuenster.Base.{ℕ, zero, suc, ◌≤◌, ◌≡◌, refl, ap, List, [], ◌∷◌, arith, length}
use fhmuenster.Platform.{Platform}
use fhmuenster.Camera.{Camera}
use fhmuenster.GameController.{number_at, axes_action}

number_at-of-le : (p : Platform) (xs : List p.R) (i : ℕ) → length xs ≤ i → number_at p xs i ≡ p.nan
number_at-of-le p [] i h = refl
number_at-of-le p (x ∷ xs) zero h = absurd (omega arith)
number_at-of-le p (x ∷ xs) (suc i) h = number_at-of-le p xs i (omega arith)

-- The camera matrix after the translation and the first rotation.
abbrev pub turned : (p : Platform) → List p.R → Camera p → p.Mat4
turned p axes c =
    p.rotate_y
      (p.translate c.camera_matrix (
        p.vec3 (p.mul (number_at p axes 0) (p.of_ℕ 10)) (p.of_ℕ 0)
          (p.mul (number_at p axes 1) (p.of_ℕ 10))))
      (p.div (p.neg (number_at p axes 3)) (p.of_ℕ 10))

-- With a gamepad of at most four axes, which are all that the standard layout has, the last
-- rotation of `axesAction` is by the quotient of minus `NaN` and 10, whatever the axes read.
pub axes_action-four :
    (p : Platform) (axes : List p.R) (c : Camera p)
    → length axes ≤ 4
    → (axes_action axes c).camera_matrix
      ≡ p.rotate_x (turned p axes c) (p.div (p.neg p.nan) (p.of_ℕ 10))
unfolding axes_action
axes_action-four p axes c h =
    ap (λ n. p.rotate_x (turned p axes c) (p.div (p.neg n) (p.of_ℕ 10)))
      (number_at-of-le p axes 4 h)
