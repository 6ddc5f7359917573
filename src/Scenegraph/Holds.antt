-- ===== src/Scenegraph/Holds.antt =====
-- What holds of a result if there is one, and what every step of the traversal keeps.
use fhmuenster.Base.{ℕ, zero, suc, ◌≡◌, refl, Option, none, some, List, [], ◌∷◌, get_elem?}
use fhmuenster.Platform.{Platform}
use fhmuenster.WebGlStart.{get_instance}
use fhmuenster.MatrixStack.{pop}
use fhmuenster.SgNode.{Node, Scene}
use fhmuenster.Scenegraph.{
  World, Result, ok, throw, ◌>>=◌, or_throw, show, draw_children, draw_traversal, enter,
}

abbrev pub Holds : {A : Type 0} → (A → Type 0) → Result A → Type 0
Holds P (ok a) = P a
Holds P (throw e) = Unit

pub Holds-map :
    {A : Type 0} (P Q : A → Type 0) (r : Result A) → Holds P r → ((a : A) → P a → Q a) → Holds Q r
Holds-map P Q (ok a) h k = k a h
Holds-map P Q (throw e) h k = tt

pub bind-Holds :
    {A B : Type 0} (P : A → Type 0) (Q : B → Type 0) (r : Result A) (f : A → Result B)
    → Holds P r
    → ((a : A) → P a → Holds Q (f a))
    → Holds Q (r >>= f)
bind-Holds P Q (ok a) f h k = k a h
bind-Holds P Q (throw e) f h k = tt

pub or_throw-Holds :
    {A B : Type 0} (Q : B → Type 0) (o : Option A) (f : A → Result B)
    → ((a : A) → o ≡ some a → Holds Q (f a))
    → Holds Q (or_throw o >>= f)
or_throw-Holds Q none f k = tt
or_throw-Holds Q (some a) f k = k a refl

-- A property of the scene that the start of WebGL and the step at a node keep.
pub record IsKept {p : Platform} (P : Scene p → Type 0) : Type 0 where
  pub started : (s : Scene p) → P s → P (record s { gl = get_instance s.gl })
  pub shown :
      (days : p.R) (world : p.Mat4) (id : ℕ) (n : Node p) (s : Scene p)
      → get_elem? s.nodes id ≡ some n
      → P s
      → Holds (λ r. P r.1) (show days world id n s)

module _ {p : Platform} (P : Scene p → Type 0) where
  children_keep :
      (draw : ℕ → World p → Result (World p))
      → ((id : ℕ) (w : World p) → P w.scene → Holds (λ w'. P w'.scene) (draw id w))
      → (ids : List ℕ) (w : World p) → P w.scene
      → Holds (λ w'. P w'.scene) (draw_children draw ids w)
  unfolding draw_children
  children_keep draw each [] w h = h
  children_keep draw each (id ∷ ids) w h =
      bind-Holds (λ w'. P w'.scene) (λ w'. P w'.scene) (draw id w) _ (each id w h)
        λ w' h'. children_keep draw each ids w' h'

  -- A traversal that returns has kept the property.
  pub draw_traversal-Holds :
      IsKept P
      → (days : p.R) (fuel id : ℕ) (w : World p) → P w.scene
      → Holds (λ w'. P w'.scene) (draw_traversal days fuel id w)
  unfolding draw_traversal
  draw_traversal-Holds kept days zero id w h = tt
  draw_traversal-Holds kept days (suc fuel) id w h =
      let Kept : World p → Type 0 = λ w'. P w'.scene in
      or_throw-Holds Kept (get_elem? w.scene.nodes id) _ λ n found.
        or_throw-Holds Kept (enter p n.trafo w.matrices) _ λ entered e.
          let s : Scene p = record w.scene { gl = get_instance w.scene.gl } in
          let world = entered.1.cell entered.0 in
          bind-Holds (λ (r : Node p × Scene p). P r.1) Kept (show days world id n s) _
            (kept.shown days world id n s found (kept.started w.scene h))
            λ shown k.
              let w1 : World p = record { scene = shown.1; matrices = entered.1 } in
              bind-Holds Kept Kept (draw_children (draw_traversal days fuel) (shown.0).children w1)
                _
                (children_keep (draw_traversal days fuel) (draw_traversal-Holds kept days fuel)
                  (shown.0).children w1 k)
                λ w' k'. or_throw-Holds Kept (pop w'.matrices) _ λ popped e'. k'
