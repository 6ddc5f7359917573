-- ===== src/Scenegraph/Depth/Edges.antt =====
-- What drawing does not change in a scene: each node's children, and whether it is a camera.
use fhmuenster.Base.{
  Bool, true, false, ℕ, zero, suc, ◌<◌, ◌≡◌, refl, ap, ◌≢◌, Option, none, some, List, [], ◌∷◌, map,
  get_elem?, set, length, arith,
}
use fhmuenster.Platform.{Platform}
use fhmuenster.SgNode.{Kind, Node, Scene, camera}
use fhmuenster.Scenegraph.{Result, throw, type_error, ◌>>=◌, or_throw}

module _ {ℓ κ} {A : Type ℓ} {B : Type κ} (f : A → B) where
  pub map-set :
      (xs : List A) (i : ℕ) {v old : A}
      → get_elem? xs i ≡ some old
      → f v ≡ f old
      → map f (set xs i v) ≡ map f xs
  map-set [] i e same = refl
  map-set (x ∷ xs) zero e same = ground arith
  map-set (x ∷ xs) (suc i) e same = ap (◌∷◌ (f x)) (map-set xs i e same)

  pub map-set_eq : (xs : List A) (i : ℕ) (v : A) → map f (set xs i v) ≡ set (map f xs) i (f v)
  map-set_eq [] i v = refl
  map-set_eq (x ∷ xs) zero v = refl
  map-set_eq (x ∷ xs) (suc i) v = ap (◌∷◌ (f x)) (map-set_eq xs i v)

  pub get_elem?-map :
      (xs : List A) (i : ℕ) {v : A} → get_elem? xs i ≡ some v → get_elem? (map f xs) i ≡ some (f v)
  get_elem?-map [] i e = cc
  get_elem?-map (x ∷ xs) zero e = ground arith
  get_elem?-map (x ∷ xs) (suc i) e = get_elem?-map xs i e

  pub get_elem?-of-lt : (xs : List A) (i : ℕ) → i < length (map f xs) → get_elem? xs i ≢ none
  get_elem?-of-lt [] i h = elim h [ ]
  get_elem?-of-lt (x ∷ xs) zero h = λ e. cc
  get_elem?-of-lt (x ∷ xs) (suc i) h = get_elem?-of-lt xs i (omega arith)

pub or_throw-bind :
    {A B : Type 0} (Q : Result B → Type 0) (o : Option A) (k : A → Result B)
    → (o ≡ none → Q (throw type_error))
    → ((a : A) → o ≡ some a → Q (k a))
    → Q (or_throw o >>= k)
or_throw-bind Q none k thrown next = thrown refl
or_throw-bind Q (some a) k thrown next = next a refl

abbrev pub is_camera : {p : Platform} → Kind p → Bool
is_camera (camera c) = true
is_camera k = false

-- What drawing does not change in a node: its children, and whether it is a camera.
abbrev pub Outline : Type 0
Outline = List ℕ × Bool

abbrev pub outline : {p : Platform} → Node p → Outline
outline n = (n.children, is_camera n.kind)

abbrev pub shape : {p : Platform} → Scene p → List Outline
shape s = map outline s.nodes
