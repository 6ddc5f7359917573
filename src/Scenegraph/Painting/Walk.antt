-- ===== src/Scenegraph/Painting/Walk.antt =====
-- The walk over a graph that stands for the traversal, and its effect on the matrices and the paint.
use mathlib.Core.Path.{subst}
use fhmuenster.Base.{
  ℕ, zero, suc, ◌≡◌, refl, sym, ◌∙◌, ap, Option, none, some, List, [], ◌∷◌, get_elem?, set, map,
}
use fhmuenster.Platform.{Platform}
use fhmuenster.WebGl.{Gl, ◌▷◌, uniform_matrix4, uniform_matrix3, model_view_matrix, normal_matrix}
use fhmuenster.WebGl.Paint.{Effect, effect, effect-get_instance}
use fhmuenster.WebGlStart.{get_instance}
use fhmuenster.SgNode.{Kind, Node, Scene, draw_kind, update_light}
use fhmuenster.Scenegraph.{Result, ok, ◌>>=◌, or_throw, show, draw_children, put_back}
use fhmuenster.Scenegraph.Recursion.{draw_below}
use fhmuenster.Scenegraph.Depth.{map-set_eq, get_elem?-map}
use fhmuenster.Scenegraph.Holds.{Holds, bind-Holds, or_throw-Holds}
use fhmuenster.Scenegraph.Painting.{
  Tag, tag, step, next, meet, advance, Paints, draw_kind-Paints, update_light-tag,
}

-- What a walk sees of a node.
pub record Sight (p : Platform) : Type 0 where
  pub children : List ℕ
  pub tag : Tag p
  pub trafo : p.Mat4

-- The nodes, and the paint with that of the draw calls.
abbrev pub Stage : Platform → Type 0
Stage p = List (Sight p) × Effect p

module _ {p : Platform} where
  abbrev pub sight : Node p → Sight p
  sight n = record { children = n.children; tag = tag n.kind; trafo = n.trafo }

  abbrev pub sights : Scene p → List (Sight p)
  sights s = map sight s.nodes

  abbrev pub stage : Scene p → Stage p
  stage s = (sights s, effect s.gl)

  -- The model-view matrix is set, with its normal matrix.
  abbrev pub at : p.Mat4 → Effect p → Effect p
  at world e = record e {
    now = record (e.now) { place = some world; normal = p.normal_from_mat4 world };
  }

  -- The node itself: it draws with the matrix `world`, and its own state goes on.
  abbrev pub drawn_at : p.R → (world : p.Mat4) (id : ℕ) → Sight p → Stage p → Stage p
  drawn_at days world id n (sees, e) =
      let t = meet world n.tag in
      (
        set sees id (record n { tag = next e.size t; trafo = advance days t n.trafo }),
        step t (at world e),
      )

  abbrev pub walk_all : (ℕ → Stage p → Stage p) → List ℕ → Stage p → Stage p
  walk_all walk [] st = st
  walk_all walk (c ∷ cs) st = walk_all walk cs (walk c st)

  abbrev pub visit :
      p.R → (p.Mat4 → ℕ → Stage p → Stage p) → p.Mat4 → ℕ → Option (Sight p) → Stage p → Stage p
  visit days walk parent id none st = st
  visit days walk parent id (some n) st =
      let world = p.multiply parent n.trafo in
      walk_all (walk world) n.children (drawn_at days world id n st)

  -- The node itself, then its children in order, under its matrix in the world.
  abbrev pub walk : p.R → (fuel : ℕ) → p.Mat4 → ℕ → Stage p → Stage p
  walk days zero parent id st = st
  walk days (suc fuel) parent id st = visit days (walk days fuel) parent id (get_elem? st.0 id) st

  -- A step at a node that is there.
  abbrev Shown : p.R → p.Mat4 → ℕ → Node p → Stage p → Node p × Scene p → Type 0
  Shown days world id n st r =
      ((r.0).children ≡ n.children) × (stage r.1 ≡ drawn_at days world id (sight n) st)

  show-Shown :
      (days : p.R) (world : p.Mat4) (id : ℕ) (n : Node p) (s : Scene p)
      → Holds (Shown days world id n (stage s)) (show days world id n s)
  unfolding show
  show-Shown days world id n s =
      or_throw-Holds (Shown days world id n (stage s)) (p.normal_from_mat4 world) _
        λ normal upright.
          let g =
            s.gl ▷ uniform_matrix4 model_view_matrix world ▷ uniform_matrix3 normal_matrix normal in
          let drawn = draw_kind days (update_light world n.kind) n.trafo g in
          let t = meet world (tag n.kind) in
          let seen : effect g ≡ at world (effect s.gl) =
            ap
              (λ o.
                let e = effect s.gl in
                record e { now = record (e.now) { place = some world; normal = o } })
              (sym upright) in
          put drawn (
            subst (λ e. Paints t (advance days t n.trafo) e drawn) seen
              (subst (λ t. Paints t (advance days t n.trafo) (effect g) drawn)
                (update_light-tag world n.kind)
                (draw_kind-Paints days (update_light world n.kind) n.trafo g)))
    where
      put :
          (drawn : Option (Kind p × p.Mat4 × Gl p))
          → let t = meet world (tag n.kind) in
            Paints t (advance days t n.trafo) (at world (effect s.gl)) drawn
            → Holds
                (Shown days world id n (stage s))
                (or_throw drawn >>= λ d. ok (put_back id n s d))
      put none h = tt
      put (some (k, t, g)) (e, same, turned) =
          let at_id =
            ap
              (λ (x : Tag p × p.Mat4).
                set (sights s) id (record { children = n.children; tag = x.0; trafo = x.1 }))
              (λ i. (same i, turned i)) in
          (refl, λ i. ((map-set_eq sight s.nodes id _ ∙ at_id) i, e i))

  module _ (days : p.R) where
    -- A drawing of a node that paints as a walk does.
    abbrev EachPaints : (ℕ → Scene p → Result (Scene p)) → (ℕ → Stage p → Stage p) → Type 0
    EachPaints draw walk =
        (id : ℕ) (s : Scene p) → Holds (λ s'. stage s' ≡ walk id (stage s)) (draw id s)

    draw_children-Painted :
        (draw : ℕ → Scene p → Result (Scene p)) (walk : ℕ → Stage p → Stage p)
        → EachPaints draw walk
        → (ids : List ℕ) (s : Scene p) (st : Stage p) → stage s ≡ st
        → Holds (λ s'. stage s' ≡ walk_all walk ids st) (draw_children draw ids s)
    unfolding draw_children
    draw_children-Painted draw walk each [] s st h = h
    draw_children-Painted draw walk each (id ∷ ids) s st h =
        bind-Holds (λ s'. stage s' ≡ walk id (stage s))
          (λ s'. stage s' ≡ walk_all walk (id ∷ ids) st) (draw id s) _ (each id s)
          λ s' h'. draw_children-Painted draw walk each ids s' (walk id st) (h' ∙ ap (walk id) h)

    -- A recursion that returns has painted as the walk says.
    pub draw_below-Painted :
        (fuel : ℕ) (parent : p.Mat4)
        → EachPaints (draw_below days fuel parent) (walk days fuel parent)
    unfolding draw_below
    draw_below-Painted zero parent id s = tt
    draw_below-Painted (suc fuel) parent id s =
        let Final : Scene p → Type 0 = λ s'. stage s' ≡ walk days (suc fuel) parent id (stage s) in
        or_throw-Holds Final (get_elem? s.nodes id) _ λ n found.
          let s1 : Scene p = record s { gl = get_instance s.gl } in
          let world = p.multiply parent n.trafo in
          let st = drawn_at days world id (sight n) (stage s) in
          let below = draw_below days fuel world in
          bind-Holds (Shown days world id n (stage s1)) Final (show days world id n s1) _
            (show-Shown days world id n s1)
            λ shown (children, painted).
              subst
                (λ st'.
                  Holds (λ s'. stage s' ≡ st') (draw_children below (shown.0).children shown.1))
                (ap (λ cs. walk_all (walk days fuel world) cs st) children
                  ∙ sym (
                      ap (λ o. visit days (walk days fuel) parent id o (stage s))
                        (get_elem?-map sight s.nodes id found)))
                (draw_children-Painted below (walk days fuel world) (draw_below-Painted fuel world)
                  (shown.0).children shown.1 st
                  (painted
                    ∙ ap (λ e. drawn_at days world id (sight n) (sights s, e))
                        (effect-get_instance s.gl)))
