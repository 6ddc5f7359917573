-- ===== src/FlatSphere/Circle.antt =====
-- The vertices of the older `class Sphere`.
use fhmuenster.Base.{
  ℕ, zero, suc, ◌+◌, ◌*◌, ◌<◌, ◌≡◌, refl, ◌∙◌, ap, true, false, some, List, [], ◌∷◌, ◌++◌, arith,
  length, get_elem?, length-append, leb,
}
use fhmuenster.Base.Blocks.{blocks, length-blocks, get_elem?-blocks}
use mathlib.Core.List.{append_assoc, append-nil}
use fhmuenster.Platform.{Platform, float32_array}
use fhmuenster.WebGl.{Gl, Call, draw_arrays, vertex_position}
use fhmuenster.WebGl.Bindings.{source, contents}
use fhmuenster.WebGlStart.{get_instance}
use fhmuenster.FlatSphere.{
  FlatSphere, write_at, angle_of, write_vertex, calc_rounds, calc_vertices, init_buffers,
  new_flat_sphere, draw,
}

module _ (p : Platform) where
  open p use {R, of_ℕ, mul, div, sin, cos}

  -- The point at `3 * k` degrees.
  abbrev pub rim : (radius : R) → ℕ → List R
  rim radius k =
      mul radius (sin (angle_of p (3 * k))) ∷ mul radius (cos (angle_of p (3 * k))) ∷ of_ℕ 0 ∷ []

  write_at-end : (xs : List R) (i : ℕ) (v : R) → i ≡ length xs → write_at p xs i v ≡ xs ++ (v ∷ [])
  unfolding write_at
  write_at-end [] zero v h = refl
  write_at-end [] (suc i) v h = absurd (omega arith)
  write_at-end (x ∷ xs) zero v h = absurd (omega arith)
  write_at-end (x ∷ xs) (suc i) v h = ap (λ t. x ∷ t) (write_at-end xs i v (omega arith))

  write_vertex-end :
      (radius : R) (k : ℕ) (xs : List R)
      → 3 * k ≡ length xs
      → write_vertex p radius (3 * k) xs ≡ xs ++ rim radius k
  unfolding write_vertex
  write_vertex-end radius k xs h =
      let x = mul radius (sin (angle_of p (3 * k))) in
      let y = mul radius (cos (angle_of p (3 * k))) in
      let ys = xs ++ (x ∷ []) in
      let zs = ys ++ (y ∷ []) in
      let two : length ys ≡ length xs + 1 = length-append xs (x ∷ []) in
      let three : length zs ≡ length ys + 1 = length-append ys (y ∷ []) in
      rw
        (
          write_at-end xs (3 * k) x h,
          write_at-end ys (3 * k + 1) y (omega arith),
          write_at-end zs (3 * k + 2) (of_ℕ 0) (omega arith),
          append_assoc ys (y ∷ []) (of_ℕ 0 ∷ []),
        )
        (append_assoc xs (x ∷ []) (y ∷ of_ℕ 0 ∷ []))

  rounds_lem :
      (radius : R) (n fuel k : ℕ) (xs : List R)
      → n < fuel
      → k + n ≡ 121
      → 3 * k ≡ length xs
      → calc_rounds p radius fuel (3 * k) xs ≡ xs ++ blocks (rim radius) n k
  unfolding calc_rounds blocks
  rounds_lem radius n zero k xs h e l = absurd (omega arith)
  rounds_lem radius zero (suc fuel) k xs h e l =
      let past : leb (3 * k) 360 ≡ false = ground arith in rw (past, append-nil) refl
  rounds_lem radius (suc n) (suc fuel) k xs h e l =
      let within : leb (3 * k) 360 ≡ true = ground arith in
      let next : 3 * k + 3 ≡ 3 * (k + 1) = omega arith in
      rw (within, write_vertex-end radius k xs l, next)
        (rounds_lem radius n fuel (k + 1) (xs ++ rim radius k) (omega arith) (omega arith)
            (omega (arith, length-append xs (rim radius k)))
          ∙ append_assoc xs (rim radius k) (blocks (rim radius) n (k + 1)))

  first_round :
      (radius a : R) (fuel : ℕ)
      → calc_rounds p radius (suc fuel) 0 (a ∷ []) ≡ calc_rounds p radius fuel 3 (rim radius 0)
  unfolding calc_rounds write_vertex write_at
  first_round radius a fuel = refl

  all_rounds :
      (radius a : R) (n fuel : ℕ)
      → n < fuel
      → 1 + n ≡ 121
      → calc_rounds p radius (suc fuel) 0 (a ∷ []) ≡ rim radius 0 ++ blocks (rim radius) n 1
  all_rounds radius a n fuel h e =
      first_round radius a fuel ∙ rounds_lem radius n fuel 1 (rim radius 0) h e refl

  calc_vertices-eq-blocks :
      (radius a : R) → calc_vertices p radius (a ∷ []) ≡ blocks (rim radius) 121 0
  unfolding calc_vertices blocks
  calc_vertices-eq-blocks radius a = all_rounds radius a 120 121 (omega arith) refl

  pub length-calc_vertices : (radius a : R) → length (calc_vertices p radius (a ∷ [])) ≡ 3 * 121
  length-calc_vertices radius a =
      rw (calc_vertices-eq-blocks radius a) (length-blocks (rim radius) 3 (λ k. refl) 121 0)

  -- The loop of `calcVertices` ends with 121 vertices of three numbers each, and the one with the
  -- number `k` is the point of the circle at 3·k degrees, at the height 0: the write by index past
  -- the end of the array leaves no hole, and nothing of what stood there at first.
  pub calc_vertices-rim :
      (radius a : R) (k c : ℕ)
      → k < 121
      → c < 3
      → (length (calc_vertices p radius (a ∷ [])) ≡ 3 * 121)
        × (get_elem? (calc_vertices p radius (a ∷ [])) (k * 3 + c) ≡ get_elem? (rim radius k) c)
  calc_vertices-rim radius a k c h hc = (
    length-calc_vertices radius a,
    rw (calc_vertices-eq-blocks radius a) (
        get_elem?-blocks (rim radius) 3 (λ j. refl) 121 0 k c (k * 3 + c) h hc refl
        ∙ ap (λ j. get_elem? (rim radius j) c) (omega arith)),
  )

length-float32_array : (p : Platform) (xs : List p.R) → length (float32_array p xs) ≡ length xs
unfolding float32_array
length-float32_array p [] = refl
length-float32_array p (x ∷ xs) = ap suc (length-float32_array p xs)

module _ {p : Platform} where
  stored :
      (s : FlatSphere p) (g : Gl p)
      → let (s', g') = init_buffers s g in
        (log : List (Call p)) × (buffer : ℕ) × ((draw s' g').log ≡ draw_arrays 0 120 ∷ log)
        × (source vertex_position log ≡ some buffer)
        × (contents buffer log ≡ some (float32_array p s.vertices))
  unfolding init_buffers draw
  stored s g = (_, g.buffers, refl, refl, ground arith)

  -- Whatever was bound before, the draw call after the constructor asks for 120 vertices, and reads
  -- the positions from a buffer that holds the rounded numbers of `calcVertices`. These are 363, so
  -- that the last of the 121 vertices is not drawn.
  pub draw-calc_vertices :
      (diameter : p.R) (color : List p.R) (g : Gl p)
      → let (s, g') = new_flat_sphere diameter color g in
        let numbers =
          float32_array p (calc_vertices p (p.div diameter (p.of_ℕ 2)) (p.of_ℕ 0 ∷ [])) in
        ((log : List (Call p)) × (buffer : ℕ) × ((draw s g').log ≡ draw_arrays 0 120 ∷ log)
          × (source vertex_position log ≡ some buffer)
          × (contents buffer log ≡ some numbers))
        × (length numbers ≡ 3 * 121)
  unfolding new_flat_sphere
  draw-calc_vertices diameter color g =
      let radius = p.div diameter (p.of_ℕ 2) in
      let vertices = calc_vertices p radius (p.of_ℕ 0 ∷ []) in
      (
        stored
            (record {
              radius = radius;
              color = color;
              vertices = vertices;
              vertex_position_buffer = (get_instance g).buffers;
            })
            (get_instance g),
        length-float32_array p vertices ∙ length-calc_vertices p radius (p.of_ℕ 0),
      )
