-- ===== src/Examples/Graph.antt =====
-- The theorems on the matrix stack and the scene graph.
use mathlib.Core.Path.{subst}
use mathlib.Core.Option.{some-injective}
use fhmuenster.Base.{ℕ, zero, suc, ◌+◌, ◌-◌, ◌<◌, ◌≤◌, ◌≡◌, refl, some, [], ◌∷◌, arith, All}
use fhmuenster.Platform.Symbolic.{symbolic, whole, identity}
use fhmuenster.MatrixStack.{Matrices, push, pop, write}
use fhmuenster.MatrixStack.View.{view, pop-push}
use fhmuenster.Scenegraph.{draw_traversal}
use fhmuenster.Scenegraph.Recursion.{draw_below, Agrees, draw_traversal-draw_below}
use fhmuenster.Scenegraph.Depth.{shape, IsRanked, WorldOutcome, draw_traversal-Outcome}
use fhmuenster.Examples.Data.{twice, twice_world}

abbrev heap : Matrices ℕ
heap = record { next = 2; cell = λ r. r + 40; items = 1 ∷ 0 ∷ [] }

pop-push_example :
    (r : ℕ) × (m' : Matrices ℕ) × (pop (push 7 heap) ≡ some (r, m'))
    × (3 ≤ r)
    × (r < m'.next)
    × (m'.cell r ≡ 7)
    × (view m' ≡ 41 ∷ 40 ∷ [])
    × (view (write r 9 m') ≡ 41 ∷ 40 ∷ [])
    × ((write r 9 m').cell 2 ≡ 7)
    × ((write r 9 m').cell r ≡ 9)
unfolding push
pop-push_example = pop-push 7 9 heap (omega arith)

draw_traversal-draw_below_example :
    Agrees symbolic
      (identity ∷ [])
      (draw_below (whole 1) 3 identity 0 twice)
      (draw_traversal (whole 1) 3 0 twice_world)
draw_traversal-draw_below_example =
    draw_traversal-draw_below symbolic (whole 1) 3 identity [] 0 twice_world (omega arith) refl

abbrev one_less : ℕ → ℕ
one_less id = 1 - id

twice-IsRanked : IsRanked (shape twice) one_less
twice-IsRanked zero o e =
    subst (λ x. All (λ c. (one_less c < 1) × (c < 2)) x.0) (some-injective _ _ e) (omega arith)
twice-IsRanked (suc zero) o e =
    subst (λ x. All (λ c. (one_less c < 0) × (c < 2)) x.0) (some-injective _ _ e) tt
twice-IsRanked (suc (suc id)) o e = cc

draw_traversal-Outcome_example :
    WorldOutcome (shape twice) (identity ∷ []) (draw_traversal (whole 1) 3 0 twice_world)
draw_traversal-Outcome_example =
    draw_traversal-Outcome (whole 1) one_less 3 0 twice_world identity [] twice-IsRanked
      (omega arith) (omega arith) (omega arith) refl
