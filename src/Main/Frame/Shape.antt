-- ===== src/Main/Frame/Shape.antt =====
-- The edges of the solar system's graph.
use mathlib.Core.Path.{subst}
use mathlib.Core.Option.{some-injective}
use fhmuenster.Base.{
  and-true, ℕ, zero, suc, ◌+◌, ◌<◌, ◌≡◌, refl, Bool, true, false, List, [], ◌∷◌, get_elem?, get_or,
  some, arith, All, ◌&&◌, ltb, ltb→lt,
}
use fhmuenster.Platform.{Platform}
use fhmuenster.WebGl.{Gl}
use fhmuenster.SgNode.{add_child}
use fhmuenster.Scenegraph.Depth.{Outline, shape, IsRanked}
use fhmuenster.Main.Setup.{◌>>=◌, ◌>>◌, pure, create, create_with, edge, set_material, make_scene}

-- The children of each node. The first seven nodes are the light, the five materials and the camera,
-- the root; then come, for each body, its planet, its texture, its mesh and its orbit, in the order
-- sun, earth, mars, moon, neptune, uranus, saturn, jupiter, venus, mercury.
abbrev pub edges : List Outline
edges =
    ([], false)
    ∷ ([], false)
    ∷ ([], false)
    ∷ ([], false)
    ∷ ([], false)
    ∷ ([], false)
    ∷ (10 ∷ [], true)
    ∷ (1 ∷ 8 ∷ 1 ∷ 9 ∷ [], false)
    ∷ ([], false)
    ∷ (0 ∷ [], false)
    ∷ (7 ∷ 14 ∷ 18 ∷ 26 ∷ 30 ∷ 42 ∷ 46 ∷ 34 ∷ 38 ∷ [], false)
    ∷ (3 ∷ 12 ∷ 3 ∷ 13 ∷ [], false)
    ∷ ([], false)
    ∷ ([], false)
    ∷ (11 ∷ 22 ∷ [], false)
    ∷ (4 ∷ 16 ∷ 2 ∷ 17 ∷ [], false)
    ∷ ([], false)
    ∷ ([], false)
    ∷ (15 ∷ [], false)
    ∷ (4 ∷ 20 ∷ 4 ∷ 21 ∷ [], false)
    ∷ ([], false)
    ∷ ([], false)
    ∷ (19 ∷ [], false)
    ∷ (4 ∷ 24 ∷ 25 ∷ [], false)
    ∷ ([], false)
    ∷ ([], false)
    ∷ (23 ∷ [], false)
    ∷ (4 ∷ 28 ∷ 29 ∷ [], false)
    ∷ ([], false)
    ∷ ([], false)
    ∷ (27 ∷ [], false)
    ∷ (4 ∷ 32 ∷ 33 ∷ [], false)
    ∷ ([], false)
    ∷ ([], false)
    ∷ (31 ∷ [], false)
    ∷ (4 ∷ 36 ∷ 37 ∷ [], false)
    ∷ ([], false)
    ∷ ([], false)
    ∷ (35 ∷ [], false)
    ∷ (4 ∷ 40 ∷ 41 ∷ [], false)
    ∷ ([], false)
    ∷ ([], false)
    ∷ (39 ∷ [], false)
    ∷ (5 ∷ 44 ∷ 45 ∷ [], false)
    ∷ ([], false)
    ∷ ([], false)
    ∷ (43 ∷ [], false)
    ∷ []

-- The length of the longest way down from each node.
abbrev pub heights : List ℕ
heights =
    0 ∷ 0 ∷ 0 ∷ 0 ∷ 0 ∷ 0 ∷ 5 ∷ 2 ∷ 0 ∷ 1 ∷ 4 ∷ 1 ∷ 0 ∷ 0 ∷ 3 ∷ 1 ∷ 0 ∷ 0 ∷ 2 ∷ 1 ∷ 0 ∷ 0 ∷ 2 ∷ 1
    ∷ 0 ∷ 0 ∷ 2 ∷ 1 ∷ 0 ∷ 0 ∷ 2 ∷ 1 ∷ 0 ∷ 0 ∷ 2 ∷ 1 ∷ 0 ∷ 0 ∷ 2 ∷ 1 ∷ 0 ∷ 0 ∷ 2 ∷ 1 ∷ 0 ∷ 0 ∷ 2 ∷ []

abbrev pub rank : ℕ → ℕ
rank id = get_or heights id 0

module _ (p : Platform) (g : Gl p) where
  -- Whatever WebGL has done before, the script builds this graph, and its root is node 6.
  pub make_scene-edges :
      let (m, s) = make_scene p (record { nodes = []; gl = g }) in
      (shape s ≡ edges) × (m.camera_id ≡ 6)
  unfolding make_scene add_child ◌>>=◌ ◌>>◌ pure create create_with edge set_material
  make_scene-edges = (refl, refl)

all_lower : ℕ → List ℕ → Bool
all_lower r [] = true
all_lower r (c ∷ cs) = (ltb (rank c) r && ltb c 47) && all_lower r cs

all_lower_sound :
    (r : ℕ) (cs : List ℕ) → all_lower r cs ≡ true → All (λ c. (rank c < r) × (c < 47)) cs
unfolding all_lower
all_lower_sound r [] h = tt
all_lower_sound r (c ∷ cs) h =
    let (here, rest) = and-true (ltb (rank c) r && ltb c 47) (all_lower r cs) h in
    let (lower, there) = and-true (ltb (rank c) r) (ltb c 47) here in
    ((ltb→lt (rank c) r lower, ltb→lt c 47 there), all_lower_sound r cs rest)

all_ranked : ℕ → List Outline → Bool
unfolding all_lower
all_ranked i [] = true
all_ranked i (o ∷ os) = all_lower (rank i) o.0 && all_ranked (i + 1) os

all_ranked_sound :
    (i : ℕ) (os : List Outline) (id k : ℕ) (o : Outline)
    → all_ranked i os ≡ true
    → get_elem? os id ≡ some o
    → i + id ≡ k
    → All (λ c. (rank c < rank k) × (c < 47)) o.0
unfolding all_ranked
all_ranked_sound i [] id k o h e j = cc
all_ranked_sound i (o' ∷ os) zero k o h e j =
    let same : i ≡ k = omega arith in
    subst (λ x. All (λ c. (rank c < rank k) × (c < 47)) x.0) (some-injective _ _ e)
      (subst (λ t. All (λ c. (rank c < rank t) × (c < 47)) o'.0) same
        (all_lower_sound (rank i) o'.0
          (and-true (all_lower (rank i) o'.0) (all_ranked (i + 1) os) h).0))
all_ranked_sound i (o' ∷ os) (suc id) k o h e j =
    all_ranked_sound (i + 1) os id k o
      (and-true (all_lower (rank i) o'.0) (all_ranked (i + 1) os) h).1 e (omega arith)

-- Every edge goes down.
pub edges-IsRanked : IsRanked edges rank
unfolding all_ranked
edges-IsRanked id o e = all_ranked_sound 0 edges id id o refl e (omega arith)
