-- ===== src/Camera/Course.antt =====
-- `draw` of `class Camera` over the frames between two keys.
use fhmuenster.Base.{
  ℕ, zero, suc, ◌≤◌, ◌≡◌, refl, ◌⊎◌, inl, inr, Option, none, some, List, ◌∷◌, arith,
}
use fhmuenster.Platform.{Platform}
use fhmuenster.WebGl.{Gl, Call, ◌▷◌, uniform_matrix4, projection_matrix}
use fhmuenster.Camera.{Speeds, Camera, moved, with_view, draw}
use fhmuenster.WebGlStart.{get_instance}

module _ (p : Platform) where
  -- The lens of a canvas.
  abbrev pub lens : (fov_radian width height : p.R) → p.Mat4
  lens fov_radian width height =
      p.perspective (p.rem fov_radian p.pi) (p.div width height) (p.of_ℕ 1) (p.of_ℕ 1000)

  -- A matrix after `n` frames of the same speeds: along x and z, then about x, y and z.
  abbrev pub course : Speeds p.R → ℕ → p.Mat4 → p.Mat4
  course s zero m = m
  course s (suc n) m =
      let shifted = p.translate m (p.vec3 s.px (p.of_ℕ 0) s.pz) in
      course s n (p.rotate_z (p.rotate_y (p.rotate_x shifted s.x) s.y) s.z)

module _ {p : Platform} where
  abbrev then_draw :
      (Camera p → Gl p → Option (Camera p × Gl p))
      → Option (Camera p × Gl p)
      → Option (Camera p × Gl p)
  then_draw f none = none
  then_draw f (some (c, g)) = f c g

  -- `n` frames of the camera alone.
  unfoldable pub draws : ℕ → Camera p → Gl p → Option (Camera p × Gl p)
  draws zero c g = some (c, g)
  draws (suc n) c g = then_draw (draws n) (draw c g)

  -- Camera and canvas after a `draw` whose matrix has the inverse `view`.
  abbrev shown : p.Mat4 → Camera p → Gl p → Camera p × Gl p
  shown view c g =
      let g0 = get_instance g in
      let projection = p.multiply (lens p c.fov_radian g0.width g0.height) view in
      (
        record c { projection = some projection; camera_matrix = moved c },
        g0 ▷ uniform_matrix4 projection_matrix projection,
      )

  draw_cases :
      (c : Camera p) (g : Gl p)
      → ((draw c g ≡ none) × (p.invert (moved c) ≡ none))
        ⊎ ((view : p.Mat4) × (p.invert (moved c) ≡ some view) × (draw c g ≡ some (shown view c g)))
  unfolding draw
  draw_cases c g = go (p.invert (moved c))
    where
      go :
          (o : Option p.Mat4)
          → let g0 = get_instance g in
            let result = with_view (lens p c.fov_radian g0.width g0.height) (moved c) c g0 o in
            ((result ≡ none) × (o ≡ none))
            ⊎ ((view : p.Mat4) × (o ≡ some view) × (result ≡ some (shown view c g)))
      go none = inl (refl, refl)
      go (some view) = inr (view, refl, refl)

  -- Any number of frames, at least one, of a camera whose speeds stay: they throw only where the
  -- matrix of one of these frames is singular. Otherwise the camera ends at the matrix that is, for
  -- each frame, translated along x and z and rotated about x, y and z by the speeds, and the last
  -- call uploads the lens of the canvas times that matrix's inverse; the speeds and the field of
  -- view stay.
  pub draws-course :
      (n : ℕ) (c : Camera p) (g : Gl p)
      → ((draws (suc n) c g ≡ none)
          × ((k : ℕ) × (k ≤ n) × (p.invert (course p c.speeds (suc k) c.camera_matrix) ≡ none)))
        ⊎ ((view : p.Mat4) × (c' : Camera p) × (g' : Gl p) × (log : List (Call p)) × (draws
                (suc n)
                c
                g
              ≡ some (c', g'))
            × (p.invert (course p c.speeds (suc n) c.camera_matrix) ≡ some view)
            × (c'.camera_matrix ≡ course p c.speeds (suc n) c.camera_matrix)
            × (c'.speeds ≡ c.speeds)
            × (c'.fov_radian ≡ c.fov_radian)
            × (g'.log
                ≡ uniform_matrix4 projection_matrix
                    (p.multiply (lens p c.fov_radian g'.width g'.height) view)
                  ∷ log))
  unfolding draws moved
  draws-course zero c g = elim (draw_cases c g) [
    | inl (threw, singular) ↦ inl (rw threw refl, (0, omega arith, singular))
    | inr (view, regular, drawn) ↦
        let (c', g') = shown view c g in
        inr (view, c', g', _, rw drawn refl, regular, refl, refl, refl, refl)
  ]
  draws-course (suc n) c g = elim (draw_cases c g) [
    | inl (threw, singular) ↦ inl (rw threw refl, (0, omega arith, singular))
    | inr (view, regular, drawn) ↦ elim (draws-course n (shown view c g).0 (shown view c g).1) [
      | inl (threw, (k, le, singular)) ↦ inl (rw drawn threw, (suc k, omega arith, singular))
      | inr (last, c', g', log, rest, invertible, matrix, speeds, fov, uploads) ↦
          inr (last, c', g', log, rw drawn rest, invertible, matrix, speeds, fov, uploads)
    ]
  ]
