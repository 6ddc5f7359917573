-- ===== src/Sphere/Vertices.antt =====
-- The vertex arrays of `class Sphere`: their sizes, and what stands at a vertex's number.
use fhmuenster.Base.{
  ℕ, zero, suc, ◌+◌, ◌*◌, ◌≤◌, ◌<◌, ◌≡◌, refl, ◌∙◌, ap, List, [], ◌∷◌, ◌++◌, arith, length,
  get_elem?,
}
use fhmuenster.Base.Blocks.{blocks, length-blocks, get_elem?-blocks}
use mathlib.Core.List.{append_assoc, append-nil}
use fhmuenster.Platform.{Platform}
use fhmuenster.Sphere.{Mesh, push_vertex, vertex_row, vertex_rows, mesh_data, theta_of, phi_of}
use fhmuenster.Sphere.Strip.{vertex_number}

module _ (p : Platform) where
  open p use {R, of_ℕ, mul, div, sin, cos}

  -- The point of the unit sphere at latitude `i` and longitude `j`.
  abbrev pub unit_point : (latitude longitude i j : ℕ) → List R
  unit_point latitude longitude i j =
      mul (sin (theta_of p latitude i)) (sin (phi_of p longitude j))
      ∷ cos (theta_of p latitude i)
      ∷ mul (sin (theta_of p latitude i)) (cos (phi_of p longitude j))
      ∷ []

  abbrev pub scaled_point : (radius : R) (latitude longitude i j : ℕ) → List R
  scaled_point radius latitude longitude i j =
      mul radius (mul (sin (theta_of p latitude i)) (sin (phi_of p longitude j)))
      ∷ mul radius (cos (theta_of p latitude i))
      ∷ mul radius (mul (sin (theta_of p latitude i)) (cos (phi_of p longitude j)))
      ∷ []

  abbrev pub tex_point : (latitude longitude i j : ℕ) → List R
  tex_point latitude longitude i j =
      div (of_ℕ j) (of_ℕ longitude) ∷ div (of_ℕ i) (of_ℕ latitude) ∷ []

  -- The three arrays behind `m`, with a row or the rows from `i` pushed onto them.
  abbrev append_mesh : Mesh R → List R → List R → List R → Mesh R
  append_mesh m a b c = record {
    vertex_positions = m.vertex_positions ++ a;
    normal_positions = m.normal_positions ++ b;
    tex = m.tex ++ c;
  }

  mesh_eq :
      (m : Mesh R) {a a' b b' c c' : List R}
      → a ≡ a'
      → b ≡ b'
      → c ≡ c'
      → (let r : Mesh R = record { vertex_positions = a; normal_positions = b; tex = c } in r)
        ≡ record { vertex_positions = a'; normal_positions = b'; tex = c' }
  mesh_eq m ea eb ec = cc

  module _ (radius : R) (latitude longitude : ℕ) where
    vertex_row-eq-append :
        (n i j : ℕ) (m : Mesh R)
        → vertex_row p radius latitude longitude n i j m
          ≡ append_mesh m
              (blocks (scaled_point radius latitude longitude i) n j)
              (blocks (unit_point latitude longitude i) n j)
              (blocks (tex_point latitude longitude i) n j)
    unfolding vertex_row blocks push_vertex
    vertex_row-eq-append zero i j m = mesh_eq m (rw append-nil) (rw append-nil) (rw append-nil)
    vertex_row-eq-append (suc n) i j m =
        vertex_row-eq-append n i (j + 1) (push_vertex p radius latitude longitude i j m)
        ∙ mesh_eq m (append_assoc m.vertex_positions _ _) (append_assoc m.normal_positions _ _)
            (append_assoc m.tex _ _)

    abbrev scaled_row : ℕ → List R
    scaled_row i = blocks (scaled_point radius latitude longitude i) (longitude + 1) 0

    abbrev unit_row : ℕ → List R
    unit_row i = blocks (unit_point latitude longitude i) (longitude + 1) 0

    abbrev tex_row : ℕ → List R
    tex_row i = blocks (tex_point latitude longitude i) (longitude + 1) 0

    vertex_rows-eq-append :
        (n i : ℕ) (m : Mesh R)
        → vertex_rows p radius latitude longitude n i m
          ≡ append_mesh m (blocks scaled_row n i) (blocks unit_row n i) (blocks tex_row n i)
    unfolding vertex_rows
    vertex_rows-eq-append zero i m =
        unfold blocks in mesh_eq m (rw append-nil) (rw append-nil) (rw append-nil)
    vertex_rows-eq-append (suc n) i m =
        vertex_rows-eq-append n (i + 1)
          (vertex_row p radius latitude longitude (longitude + 1) i 0 m)
        ∙ rw (vertex_row-eq-append (longitude + 1) i 0 m) (
            unfold blocks in
            mesh_eq m (append_assoc m.vertex_positions _ _) (append_assoc m.normal_positions _ _)
              (append_assoc m.tex _ _))

    mesh_data-eq-blocks : mesh_data p radius latitude longitude ≡ record {
      vertex_positions = blocks scaled_row (latitude + 1) 0;
      normal_positions = blocks unit_row (latitude + 1) 0;
      tex = blocks tex_row (latitude + 1) 0;
    }
    unfolding mesh_data
    mesh_data-eq-blocks = vertex_rows-eq-append (latitude + 1) 0 _

    -- There are (latitude + 1)·(longitude + 1) vertices: three coordinates and three components of
    -- a normal for each, and two texture coordinates.
    pub length-mesh_data :
        let m = mesh_data p radius latitude longitude in
        (length m.vertex_positions ≡ 3 * ((latitude + 1) * (longitude + 1)))
        × (length m.normal_positions ≡ 3 * ((latitude + 1) * (longitude + 1)))
        × (length m.tex ≡ 2 * ((latitude + 1) * (longitude + 1)))
    length-mesh_data = rw mesh_data-eq-blocks (
      size scaled_row 3 (λ i. length-blocks _ 3 (λ j. refl) (longitude + 1) 0) ∙ omega arith,
      size unit_row 3 (λ i. length-blocks _ 3 (λ j. refl) (longitude + 1) 0) ∙ omega arith,
      size tex_row 2 (λ i. length-blocks _ 2 (λ j. refl) (longitude + 1) 0) ∙ omega arith,
    )
      where
        size :
            (f : ℕ → List R) (k : ℕ)
            → ((i : ℕ) → length (f i) ≡ (longitude + 1) * k)
            → length (blocks f (latitude + 1) 0) ≡ (latitude + 1) * ((longitude + 1) * k)
        size f k h = length-blocks f ((longitude + 1) * k) h (latitude + 1) 0

    row_elem :
        (f : ℕ → ℕ → List R) (k : ℕ)
        → ((i j : ℕ) → length (f i j) ≡ k)
        → (i j c n : ℕ) → i ≤ latitude
        → j ≤ longitude
        → c < k
        → n ≡ vertex_number longitude i j * k + c
        → get_elem? (blocks (λ t. blocks (f t) (longitude + 1) 0) (latitude + 1) 0) n
          ≡ get_elem? (f i j) c
    row_elem f k size i j c n hi hj hc e =
        get_elem?-blocks (λ t. blocks (f t) (longitude + 1) 0) ((longitude + 1) * k)
          (λ t. length-blocks (f t) k (size t) (longitude + 1) 0) (latitude + 1) 0 i (j * k + c) n
          (omega arith) (grind arith) (omega arith)
        ∙ ap (λ t. get_elem? (blocks (f t) (longitude + 1) 0) (j * k + c)) (omega arith)
        ∙ get_elem?-blocks (f i) k (size i) (longitude + 1) 0 j c (j * k + c) (omega arith) hc refl
        ∙ ap (λ t. get_elem? (f i t) c) (omega arith)

    -- The vertex with number i·(longitude + 1) + j is the point of latitude `i` and longitude `j`:
    -- its three coordinates, its normal and its texture coordinates stand at that number in their
    -- arrays, and the coordinates are the normal's components times the radius.
    pub mesh_data-vertex :
        (i j : ℕ)
        → i ≤ latitude
        → j ≤ longitude
        → let m = mesh_data p radius latitude longitude in
          let number = vertex_number longitude i j in
          ((c : ℕ)
            → c < 3
            → get_elem? m.vertex_positions (number * 3 + c)
              ≡ get_elem? (scaled_point radius latitude longitude i j) c)
          × ((c : ℕ)
              → c < 3
              → get_elem? m.normal_positions (number * 3 + c)
                ≡ get_elem? (unit_point latitude longitude i j) c)
          × ((c : ℕ)
              → c < 2
              → get_elem? m.tex (number * 2 + c) ≡ get_elem? (tex_point latitude longitude i j) c)
    mesh_data-vertex i j hi hj = rw mesh_data-eq-blocks (
      (λ c hc.
          row_elem (scaled_point radius latitude longitude) 3 (λ a b. refl) i j c _ hi hj hc refl),
      (λ c hc. row_elem (unit_point latitude longitude) 3 (λ a b. refl) i j c _ hi hj hc refl),
      (λ c hc. row_elem (tex_point latitude longitude) 2 (λ a b. refl) i j c _ hi hj hc refl),
    )
