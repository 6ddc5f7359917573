-- ===== src/Sphere/Strip.antt =====
-- The index array of `class Sphere`: the vertices that each cell of the mesh names, their bounds,
-- and their storage in 16 bits.
use fhmuenster.Base.{
  ℕ, zero, suc, ◌+◌, ◌*◌, ◌≤◌, ◌<◌, ◌≡◌, refl, ◌∙◌, ap, some, List, [], ◌∷◌, ◌++◌, arith, length,
  get_elem?, All,
}
use fhmuenster.Base.Blocks.{blocks, length-blocks, get_elem?-blocks, All-blocks}
use mathlib.Core.List.{append_assoc, append-nil}
use fhmuenster.Platform.{uint16_array}
use fhmuenster.Sphere.{strip_cells, strip_rows, index_data}

-- The number of the vertex where the latitude `i` meets the longitude `j`.
abbrev pub vertex_number : (longitude i j : ℕ) → ℕ
vertex_number longitude i j = i * (longitude + 1) + j

-- The four corners of a cell, in the order of the strip.
abbrev cell : (longitude i j : ℕ) → List ℕ
cell longitude i j =
    vertex_number longitude i j
    ∷ (vertex_number longitude i j + longitude + 1)
    ∷ (vertex_number longitude i j + 1)
    ∷ (vertex_number longitude i j + longitude + 1 + 1)
    ∷ []

row : (longitude i : ℕ) → List ℕ
row longitude i = blocks (cell longitude i) longitude 0

strip_cells-eq-append :
    (longitude n i j : ℕ) (indices : List ℕ)
    → strip_cells longitude n i j indices ≡ indices ++ blocks (cell longitude i) n j
unfolding strip_cells blocks
strip_cells-eq-append longitude zero i j indices = rw append-nil
strip_cells-eq-append longitude (suc n) i j indices =
    strip_cells-eq-append longitude n i (j + 1) (indices ++ cell longitude i j)
    ∙ append_assoc indices (cell longitude i j) (blocks (cell longitude i) n (j + 1))

strip_rows-eq-append :
    (longitude n i : ℕ) (indices : List ℕ)
    → strip_rows longitude n i indices ≡ indices ++ blocks (row longitude) n i
unfolding strip_rows blocks row
strip_rows-eq-append longitude zero i indices = rw append-nil
strip_rows-eq-append longitude (suc n) i indices =
    strip_rows-eq-append longitude n (i + 1) (strip_cells longitude longitude i 0 indices)
    ∙ rw (strip_cells-eq-append longitude longitude i 0 indices)
        (append_assoc indices (row longitude i) (blocks (row longitude) n (i + 1)))

index_data-eq-blocks :
    (latitude longitude : ℕ) → index_data latitude longitude ≡ blocks (row longitude) latitude 0
unfolding index_data
index_data-eq-blocks latitude longitude = strip_rows-eq-append longitude latitude 0 []

length-row : (longitude i : ℕ) → length (row longitude i) ≡ longitude * 4
unfolding row
length-row longitude i = length-blocks (cell longitude i) 4 (λ j. refl) longitude 0

pub length-index_data :
    (latitude longitude : ℕ) → length (index_data latitude longitude) ≡ 4 * latitude * longitude
length-index_data latitude longitude =
    ap length (index_data-eq-blocks latitude longitude)
    ∙ length-blocks (row longitude) (longitude * 4) (length-row longitude) latitude 0
    ∙ omega arith

get_elem?-row :
    (longitude i j c k : ℕ)
    → j < longitude
    → c < 4
    → k ≡ j * 4 + c
    → get_elem? (row longitude i) k ≡ get_elem? (cell longitude i j) c
unfolding row
get_elem?-row longitude i j c k hj hc e =
    get_elem?-blocks (cell longitude i) 4 (λ j. refl) longitude 0 j c k hj hc e
    ∙ ap (λ t. get_elem? (cell longitude i t) c) (omega arith)

in_row : (longitude j c : ℕ) → j < longitude → c < 4 → j * 4 + c < longitude * 4
in_row longitude j c hj hc = omega arith

-- The strip visits the cells row by row. The cell of latitude `i` and longitude `j` takes the
-- places 4·(i·longitude + j) to 4·(i·longitude + j) + 3 of the index array, and these hold its
-- corners: the vertices of (i, j), (i + 1, j), (i, j + 1) and (i + 1, j + 1).
pub index_data-corners :
    (latitude longitude i j : ℕ)
    → i < latitude
    → j < longitude
    → (get_elem? (index_data latitude longitude) (i * (longitude * 4) + (j * 4 + 0))
        ≡ some (vertex_number longitude i j))
      × (get_elem? (index_data latitude longitude) (i * (longitude * 4) + (j * 4 + 1))
          ≡ some (vertex_number longitude (i + 1) j))
      × (get_elem? (index_data latitude longitude) (i * (longitude * 4) + (j * 4 + 2))
          ≡ some (vertex_number longitude i (j + 1)))
      × (get_elem? (index_data latitude longitude) (i * (longitude * 4) + (j * 4 + 3))
          ≡ some (vertex_number longitude (i + 1) (j + 1)))
index_data-corners latitude longitude i j hi hj = (
  at 0 (omega arith),
  at 1 (omega arith) ∙ ap some (omega arith),
  at 2 (omega arith) ∙ ap some (omega arith),
  at 3 (omega arith) ∙ ap some (omega arith),
)
  where
    at :
        (c : ℕ)
        → c < 4
        → get_elem? (index_data latitude longitude) (i * (longitude * 4) + (j * 4 + c))
          ≡ get_elem? (cell longitude i j) c
    at c hc = rw (index_data-eq-blocks latitude longitude) (
        get_elem?-blocks (row longitude) (longitude * 4) (length-row longitude) latitude 0 i
          (j * 4 + c) (i * (longitude * 4) + (j * 4 + c)) hi (in_row longitude j c hj hc) refl
        ∙ ap (λ t. get_elem? (row longitude t) (j * 4 + c)) (omega arith)
        ∙ get_elem?-row longitude i j c (j * 4 + c) hj hc refl)

cell-lt :
    (latitude longitude i j : ℕ)
    → i < latitude
    → j < longitude
    → All (λ k. k < (latitude + 1) * (longitude + 1)) (cell longitude i j)
cell-lt latitude longitude i j hi hj = omega (arith, step)
  where
    step : (i + 2) * (longitude + 1) ≤ (latitude + 1) * (longitude + 1)
    step = grind arith

-- Every index is below the number of vertices, (latitude + 1)·(longitude + 1).
pub index_data_bounds :
    (latitude longitude : ℕ)
    → All (λ k. k < (latitude + 1) * (longitude + 1)) (index_data latitude longitude)
index_data_bounds latitude longitude =
    rw (index_data-eq-blocks latitude longitude)
      (All-blocks _ (row longitude) latitude 0 λ i hi. rows i (omega arith))
  where
    rows :
        (i : ℕ) → i < latitude → All (λ k. k < (latitude + 1) * (longitude + 1)) (row longitude i)
    rows i hi =
        unfold row in
        All-blocks _ (cell longitude i) longitude 0
          λ j hj. cell-lt latitude longitude i j hi (omega arith)

uint16_array-eq_self :
    (bound : ℕ) (xs : List ℕ) → bound ≤ 65_536 → All (λ k. k < bound) xs → uint16_array xs ≡ xs
unfolding uint16_array
uint16_array-eq_self bound [] h a = refl
uint16_array-eq_self bound (x ∷ xs) h (lt, a) = ground (arith, uint16_array-eq_self bound xs h a)

-- If the mesh has at most 65536 vertices, storing the indices in a `Uint16Array` changes none.
pub uint16_array-index_data :
    (latitude longitude : ℕ)
    → (latitude + 1) * (longitude + 1) ≤ 65_536
    → uint16_array (index_data latitude longitude) ≡ index_data latitude longitude
uint16_array-index_data latitude longitude h =
    uint16_array-eq_self _ _ h (index_data_bounds latitude longitude)
