-- ===== src/Camera/View.antt =====
-- `draw` of `class Camera`: the matrix it uploads, and when the camera stands still.
use mathlib.Core.Option.{some-injective}
use fhmuenster.Base.{◌≡◌, refl, ◌∙◌, ap, sym, ◌⊎◌, inl, inr, Option, none, some, ◌∷◌}
use fhmuenster.Platform.{Platform}
use fhmuenster.WebGl.{Gl, uniform_matrix4, projection_matrix}
use fhmuenster.WebGlStart.{get_instance}
use fhmuenster.Camera.{Speeds, Camera, at_rest, moved, draw, with_view}

-- What gl-matrix computes for the zero vector and the angle 0.
pub record IsIdle (p : Platform) : Type 0 where
  pub translate_zero : (m : p.Mat4) → p.translate m (p.vec3 (p.of_ℕ 0) (p.of_ℕ 0) (p.of_ℕ 0)) ≡ m
  pub rotate_x_zero : (m : p.Mat4) → p.rotate_x m (p.of_ℕ 0) ≡ m
  pub rotate_y_zero : (m : p.Mat4) → p.rotate_y m (p.of_ℕ 0) ≡ m
  pub rotate_z_zero : (m : p.Mat4) → p.rotate_z m (p.of_ℕ 0) ≡ m

module _ {p : Platform} where
  moved-at_rest : IsIdle p → (c : Camera p) → c.speeds ≡ at_rest p → moved c ≡ c.camera_matrix
  unfolding moved
  moved-at_rest idle c h =
      ap
        (λ (s : Speeds p.R).
          let shifted = p.translate c.camera_matrix (p.vec3 s.px (p.of_ℕ 0) s.pz) in
          p.rotate_z (p.rotate_y (p.rotate_x shifted s.x) s.y) s.z)
        h
      ∙ idle.rotate_z_zero _
      ∙ idle.rotate_y_zero _
      ∙ idle.rotate_x_zero _
      ∙ idle.translate_zero _

  with_view_lem :
      (lens matrix : p.Mat4) (c : Camera p) (g : Gl p) (o : Option p.Mat4)
      → ((with_view lens matrix c g o ≡ none) × (o ≡ none))
        ⊎ ((view : p.Mat4) × (c' : Camera p) × (g' : Gl p) × (with_view lens matrix c g o
              ≡ some (c', g'))
            × (o ≡ some view)
            × (c'.camera_matrix ≡ matrix)
            × (c'.speeds ≡ c.speeds)
            × (c'.fov_radian ≡ c.fov_radian)
            × (g'.log ≡ uniform_matrix4 projection_matrix (p.multiply lens view) ∷ g.log))
  with_view_lem lens matrix c g none = inl (refl, refl)
  with_view_lem lens matrix c g (some view) = inr (view, _, _, refl, refl, refl, refl, refl, refl)

  -- `draw` throws exactly if the moved camera matrix is singular. Otherwise the camera keeps the
  -- moved matrix, and the projection it uploads is the lens times the inverse of that matrix, from
  -- the field of view and the canvas's sides; speeds and field of view stay.
  pub draw_view :
      (c : Camera p) (g : Gl p)
      → ((draw c g ≡ none) × (p.invert (moved c) ≡ none))
        ⊎ ((view : p.Mat4) × (c' : Camera p) × (g' : Gl p) × (draw c g ≡ some (c', g'))
            × (p.invert (moved c) ≡ some view)
            × (c'.camera_matrix ≡ moved c)
            × (c'.speeds ≡ c.speeds)
            × (c'.fov_radian ≡ c.fov_radian)
            × (g'.log
                ≡ uniform_matrix4 projection_matrix (
                    p.multiply
                      (p.perspective
                        (p.rem c.fov_radian p.pi)
                        (p.div (get_instance g).width (get_instance g).height)
                        (p.of_ℕ 1)
                        (p.of_ℕ 1000))
                      view)
                  ∷ (get_instance g).log))
  unfolding draw
  draw_view c g = with_view_lem _ (moved c) c (get_instance g) (p.invert (moved c))

  -- If a translation by the zero vector and a rotation by the angle 0 leave every matrix as it is,
  -- a draw that does not throw leaves a camera whose speeds are all 0 where it is.
  pub draw-at_rest :
      IsIdle p
      → (c c' : Camera p) (g g' : Gl p) → c.speeds ≡ at_rest p
      → draw c g ≡ some (c', g')
      → c'.camera_matrix ≡ c.camera_matrix
  draw-at_rest idle c c' g g' h e = elim (draw_view c g) [
    | inl (threw, _) ↦ cc
    | inr (view, c1, g1, drawn, regular, kept, speeds, fov, log) ↦
        ap (λ (t : Camera p × Gl p). (t.0).camera_matrix) (some-injective _ _ (sym e ∙ drawn))
        ∙ kept
        ∙ moved-at_rest idle c h
  ]
