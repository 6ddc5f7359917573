-- ===== src/Scenegraph/Depth/Below.antt =====
-- How the recursion of `drawTraversal` without its stack ends on an acyclic graph.
use mathlib.Core.Path.{subst}
use mathlib.Core.Option.{some-injective}
use fhmuenster.Base.{
  true, sym, ℕ, zero, suc, ◌<◌, ◌≡◌, refl, ◌∙◌, ap, Option, none, some, List, [], ◌∷◌, get_elem?,
  length, arith, All, All-get_elem?, All-set,
}
use fhmuenster.Platform.{Platform}
use fhmuenster.WebGl.{Gl, ◌▷◌, uniform_matrix4, uniform_matrix3, model_view_matrix, normal_matrix}
use fhmuenster.WebGlStart.{get_instance}
use fhmuenster.Camera
use fhmuenster.Camera.{Camera}
use fhmuenster.SgNode.{Kind, Node, Scene, draw_kind, update_light, camera, drawn_camera, light}
use fhmuenster.Scenegraph.{
  Result, ok, throw, type_error, range_error, ◌>>=◌, show, draw_children, put_back,
}
use fhmuenster.Scenegraph.Motions.{
  Motions, IsSound, SoundDrawn, update_light-SoundKind, draw_kind-SoundDrawn,
}
use fhmuenster.Scenegraph.Recursion.{draw_below}
use fhmuenster.Scenegraph.Depth.Edges.{
  map-set, get_elem?-map, get_elem?-of-lt, or_throw-bind, is_camera, Outline, outline, shape,
}

-- Every edge leads to a node that is there and has a smaller rank: no cycle.
abbrev pub IsRanked : List Outline → (ℕ → ℕ) → Type 0
IsRanked sh rank =
    (id : ℕ) (o : Outline)
    → get_elem? sh id ≡ some o
    → All (λ c. (rank c < rank id) × (c < length sh)) o.0

-- A traversal returns with the edges of the graph unchanged and every node sound, or throws a
-- TypeError, which is a failure; it does not run out of stack.
abbrev pub Outcome : {p : Platform} → Motions p → List Outline → Result (Scene p) → Type 0
Outcome L sh (ok s) = (shape s ≡ sh) × All (IsSound L) s.nodes
Outcome L sh (throw type_error) = Motions.Failure L
Outcome L sh (throw range_error) = ⊥

All-rank :
    (rank : ℕ → ℕ)
    → (sh : List Outline) (id fuel : ℕ) (cs : List ℕ) → rank id < suc fuel
    → All (λ c. (rank c < rank id) × (c < length sh)) cs
    → All (λ c. (rank c < fuel) × (c < length sh)) cs
All-rank rank sh id fuel [] lt all = tt
All-rank rank sh id fuel (c ∷ cs) lt (b, all) =
    ((omega arith, b.1), All-rank rank sh id fuel cs lt all)

drawn_lem :
    {p : Platform} (o : Option (Camera p × Gl p)) (t : p.Mat4) (d : Kind p × p.Mat4 × Gl p)
    → drawn_camera t o ≡ some d
    → is_camera d.0 ≡ true
drawn_lem none t d e = cc
drawn_lem (some (c, g)) t d e = ap (λ x. is_camera x.0) (sym (some-injective _ _ e))

update_light-is_camera :
    {p : Platform} (world : p.Mat4) (k : Kind p) → is_camera (update_light world k) ≡ is_camera k
unfolding update_light
update_light-is_camera world (light l) = refl
update_light-is_camera world k = refl

module _ {p : Platform} (L : Motions p) (days : p.R) (days_number : L.IsNumber days) where
  draw_kind-is_camera :
      (k : Kind p) (t : p.Mat4) (g : Gl p) (d : Kind p × p.Mat4 × Gl p)
      → draw_kind days k t g ≡ some d
      → is_camera d.0 ≡ is_camera k
  unfolding draw_kind
  draw_kind-is_camera (camera c) t g d e = drawn_lem (Camera.draw c g) t d e
  draw_kind-is_camera k t g d e =
      ap (λ (x : Kind p × p.Mat4 × Gl p). is_camera x.0) (sym (some-injective _ _ e))

  abbrev ShowOutcome : List Outline → List ℕ → Result (Node p × Scene p) → Type 0
  ShowOutcome sh children (ok (n, s)) =
      (n.children ≡ children) × (shape s ≡ sh) × All (IsSound L) s.nodes
  ShowOutcome sh children (throw type_error) = L.Failure
  ShowOutcome sh children (throw range_error) = ⊥

  show-ShowOutcome :
      (world : p.Mat4) (id : ℕ) (node : Node p) (s : Scene p)
      → L.IsMotion world
      → All (IsSound L) s.nodes
      → get_elem? s.nodes id ≡ some node
      → ShowOutcome (shape s) node.children (show days world id node s)
  unfolding show
  show-ShowOutcome world id node s motion sound found =
      or_throw-bind (ShowOutcome (shape s) node.children) (p.normal_from_mat4 world) _
        (λ e. L.no_normal world motion e)
        λ normal _.
          let g =
            s.gl ▷ uniform_matrix4 model_view_matrix world ▷ uniform_matrix3 normal_matrix normal in
          let k = update_light world node.kind in
          let (m, h) = All-get_elem? (IsSound L) s.nodes id sound found in
          let drew =
            draw_kind-SoundDrawn L days k node.trafo g days_number
              (update_light-SoundKind L world node.kind h) m in
          or_throw-bind (ShowOutcome (shape s) node.children) (draw_kind days k node.trafo g)
            (λ drawn. ok (put_back id node s drawn)) (λ e. subst (SoundDrawn L) e drew)
            λ drawn e.
              let (h', m') = subst (SoundDrawn L) e drew in
              (
                refl,
                map-set (outline {p = p}) s.nodes id found (
                    ap (λ b. (node.children, b))
                      (draw_kind-is_camera k node.trafo g drawn e
                        ∙ update_light-is_camera world node.kind)),
                All-set (IsSound L) s.nodes id _ sound (m', h'),
              )

  module _ (rank : ℕ → ℕ) (sh : List Outline) where
    abbrev EachOutcome : ℕ → (ℕ → Scene p → Result (Scene p)) → Type 0
    EachOutcome fuel draw =
        (id : ℕ) (s : Scene p)
        → shape s ≡ sh
        → All (IsSound L) s.nodes
        → id < length sh
        → rank id < fuel
        → Outcome L sh (draw id s)

    children-Outcome :
        (fuel : ℕ) (draw : ℕ → Scene p → Result (Scene p))
        → EachOutcome fuel draw
        → (ids : List ℕ) (s : Scene p) → shape s ≡ sh
        → All (IsSound L) s.nodes
        → All (λ c. (rank c < fuel) × (c < length sh)) ids
        → Outcome L sh (draw_children draw ids s)
    unfolding draw_children
    children-Outcome fuel draw each [] s e sound below = (e, sound)
    children-Outcome fuel draw each (id ∷ ids) s e sound (b, below) =
        step (draw id s) (each id s e sound b.1 b.0)
          (λ s' e' sound'. children-Outcome fuel draw each ids s' e' sound' below)
      where
        step :
            (r : Result (Scene p))
            → Outcome L sh r
            → ((s' : Scene p)
                → shape s' ≡ sh
                → All (IsSound L) s'.nodes
                → Outcome L sh (draw_children draw ids s'))
            → Outcome L sh (r >>= draw_children draw ids)
        step (ok s') (e', sound') rest = rest s' e' sound'
        step (throw type_error) h rest = h
        step (throw range_error) h rest = absurd h

    after :
        (fuel : ℕ) (draw : ℕ → Scene p → Result (Scene p))
        → EachOutcome fuel draw
        → (children : List ℕ) (shown : Result (Node p × Scene p)) → ShowOutcome sh children shown
        → All (λ c. (rank c < fuel) × (c < length sh)) children
        → Outcome L sh (shown >>= λ r. draw_children draw (r.0).children r.1)
    after fuel draw each children (ok (n, s)) (same, e, sound) below =
        rw same (children-Outcome fuel draw each children s e sound below)
    after fuel draw each children (throw type_error) h below = h
    after fuel draw each children (throw range_error) h below = absurd h

    pub below-Outcome :
        IsRanked sh rank
        → (fuel : ℕ) (parent : p.Mat4) → L.IsMotion parent
        → EachOutcome fuel (draw_below days fuel parent)
    unfolding draw_below
    below-Outcome ranked zero parent motion id s e sound there h = elim h [ ]
    below-Outcome ranked (suc fuel) parent motion id s e sound there h =
        or_throw-bind (Outcome L sh) (get_elem? s.nodes id) _
          (λ missing. absurd (get_elem?-of-lt (outline {p = p}) s.nodes id (rw e there) missing))
          λ node found.
            let world = p.multiply parent node.trafo in
            let s0 : Scene p = record s { gl = get_instance s.gl } in
            let (m, _) = All-get_elem? (IsSound L) s.nodes id sound found in
            let motion' = L.multiply_motion parent node.trafo motion m in
            after fuel (draw_below days fuel world) (below-Outcome ranked fuel world motion')
              node.children (show days world id node s0)
              (subst (λ t. ShowOutcome t node.children (show days world id node s0)) e
                (show-ShowOutcome world id node s0 motion' sound found))
              (All-rank rank sh id fuel node.children h (
                ranked id (outline node)
                  (rw (← e) (get_elem?-map (outline {p = p}) s.nodes id found))))
