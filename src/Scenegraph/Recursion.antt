-- ===== src/Scenegraph/Recursion.antt =====
-- The traversal of `class Scenegraph` beside recursion with the matrix of the parent as an argument.
use fhmuenster.Base.{
  ℕ, zero, suc, ◌≡◌, refl, ◌∙◌, ap, inl, inr, some, List, [], ◌∷◌, get_elem?, Option-cases,
}
use fhmuenster.Platform.{Platform}
use fhmuenster.WebGlStart.{get_instance}
use fhmuenster.MatrixStack.{Matrices, push, pop, write}
use fhmuenster.MatrixStack.View.{
  view, IsAllocated, push_lem, pop_lem, push-write, push-cell, All-lt-suc,
}
use fhmuenster.SgNode.{Node, Scene}
use fhmuenster.Scenegraph.{
  World, Result, ok, throw, range_error, ◌>>=◌, or_throw, enter, show, draw_children,
  draw_traversal,
}

module _ {p : Platform} where
  -- The traversal without a stack: `parent` is the matrix of the node above, in the world.
  unfoldable pub draw_below : p.R → ℕ → p.Mat4 → ℕ → Scene p → Result (Scene p)
  draw_below days zero parent id s = throw range_error
  draw_below days (suc fuel) parent id s = do
    node ← or_throw (get_elem? s.nodes id)
    let world = p.multiply parent node.trafo
    (node', shown) ← show days world id node (record s { gl = get_instance s.gl })
    draw_children (draw_below days fuel world) node'.children shown

module _ (p : Platform) where
  open p use {Mat4, multiply}

  -- What `enter` leaves behind, over a stack with `above` on top.
  record Entered (world above : Mat4) (rest : List Mat4) (r : ℕ) (m : Matrices Mat4) : Type 0 where
    value : m.cell r ≡ world
    stack : view m ≡ world ∷ above ∷ rest
    allocated : IsAllocated m

  enter_lem :
      (t : Mat4) (m : Matrices Mat4) {above : Mat4} {rest : List Mat4}
      → IsAllocated m
      → view m ≡ above ∷ rest
      → (r : ℕ) × (m' : Matrices Mat4) × (enter p t m ≡ some (r, m'))
        × Entered (multiply above t) above rest r m'
  unfolding enter
  enter_lem t m {above} {rest} h e =
      let (r, m1, popped, P) = pop_lem m h e in
      let m2 = push (m1.cell r) m1 in
      let w = multiply (m2.cell r) t in
      let m3 = write r w m2 in
      let (old, new, stack, allocated, lt) = push-write w P in
      let same : w ≡ multiply above t = ap (λ a. multiply a t) old in
      let (allocated', stack') = push_lem (m3.cell r) m3 allocated in
      (
        r,
        push (m3.cell r) m3,
        rw (popped, enter) refl,
        record {
          value = push-cell (m3.cell r) m3 lt ∙ new ∙ same;
          stack = stack' ∙ cc (new, same, stack);
          allocated = allocated';
        },
      )

  -- The final `pop`.
  leave_lem :
      (m : Matrices Mat4) {above : Mat4} {rest : List Mat4}
      → IsAllocated m
      → view m ≡ above ∷ rest
      → (r : ℕ) × (m' : Matrices Mat4) × (pop m ≡ some (r, m')) × (view m' ≡ rest) × IsAllocated m'
  leave_lem m h e =
      let (r, m', popped, P) = pop_lem m h e in
      (r, m', popped, P.below, All-lt-suc r m'.next m'.items P.allocated P.fresh)

  -- The two results agree: the same exception, or the same scene with the stack `stack`.
  abbrev pub Agrees : List Mat4 → Result (Scene p) → Result (World p) → Type 0
  Agrees stack (ok s) (ok w) = (w.scene ≡ s) × (view w.matrices ≡ stack) × IsAllocated w.matrices
  Agrees stack (throw a) (throw b) = a ≡ b
  Agrees stack _ _ = ⊥

  bind-Agrees :
      (stack : List Mat4) (a : Result (Scene p)) (b : Result (World p))
      (f : Scene p → Result (Scene p)) (g : World p → Result (World p))
      → Agrees stack a b
      → ((w : World p)
          → IsAllocated w.matrices
          → view w.matrices ≡ stack
          → Agrees stack (f w.scene) (g w))
      → Agrees stack (a >>= f) (b >>= g)
  bind-Agrees stack (ok s) (ok w) f g (same, e, h) next = rw (← same) (next w h e)
  bind-Agrees stack (ok s) (throw b) f g h next = absurd h
  bind-Agrees stack (throw a) (ok w) f g h next = absurd h
  bind-Agrees stack (throw a) (throw b) f g h next = h

  module _ (days : p.R) where
    -- Drawing one node agrees, whatever stands on the stack above it.
    abbrev AgreesAt : ℕ → Type 0
    AgreesAt fuel =
        (parent : Mat4) (rest : List Mat4) (id : ℕ) (w : World p)
        → IsAllocated w.matrices
        → view w.matrices ≡ parent ∷ rest
        → Agrees (parent ∷ rest) (draw_below days fuel parent id w.scene)
            (draw_traversal days fuel id w)

    children_agree :
        (fuel : ℕ)
        → AgreesAt fuel
        → (parent : Mat4) (rest : List Mat4) (ids : List ℕ) (w : World p) → IsAllocated w.matrices
        → view w.matrices ≡ parent ∷ rest
        → Agrees
            (parent ∷ rest)
            (draw_children (draw_below days fuel parent) ids w.scene)
            (draw_children (draw_traversal days fuel) ids w)
    unfolding draw_children
    children_agree fuel agree parent rest [] w h e = (refl, e, h)
    children_agree fuel agree parent rest (id ∷ ids) w h e =
        bind-Agrees (parent ∷ rest) _ _ (draw_children (draw_below days fuel parent) ids)
          (draw_children (draw_traversal days fuel) ids) (agree parent rest id w h e)
          λ w' h' e'. children_agree fuel agree parent rest ids w' h' e'

    -- The stretch of `draw_traversal` from the first child to the final `pop`.
    abbrev finish : Result (World p) → Result (World p)
    finish r = r >>= λ drawn.
        or_throw (pop drawn.matrices) >>= λ popped. ok (record drawn { matrices = popped.1 })

    finish-Agrees :
        (world : Mat4) (stack : List Mat4) (a : Result (Scene p)) (b : Result (World p))
        → Agrees (world ∷ stack) a b
        → Agrees stack a (finish b)
    finish-Agrees world stack (ok s) (ok w) (same, e, h) =
        let (r, m', popped, e', h') = leave_lem w.matrices h e in rw popped (same, e', h')
    finish-Agrees world stack (ok s) (throw b) h = absurd h
    finish-Agrees world stack (throw a) (ok w) h = absurd h
    finish-Agrees world stack (throw a) (throw b) h = h

    shown_agree :
        (fuel : ℕ)
        → AgreesAt fuel
        → (world : Mat4) (stack : List Mat4) (m : Matrices Mat4) → IsAllocated m
        → view m ≡ world ∷ stack
        → (shown : Result (Node p × Scene p))
        → Agrees stack
            (shown >>= λ r. draw_children (draw_below days fuel world) (r.0).children r.1)
            (shown >>= λ r. finish (
              draw_children
                (draw_traversal days fuel)
                (r.0).children
                (record { scene = r.1; matrices = m })))
    shown_agree fuel agree world stack m h e (throw x) = refl
    shown_agree fuel agree world stack m h e (ok (node, s)) = finish-Agrees world stack _ _ (
        children_agree fuel agree world stack node.children (record { scene = s; matrices = m }) h
          e)

    draw_agrees : (fuel : ℕ) → AgreesAt fuel
    unfolding draw_below draw_traversal
    draw_agrees zero parent rest id w h e = refl
    draw_agrees (suc fuel) parent rest id w h e = elim (Option-cases (get_elem? w.scene.nodes id)) [
      | inl missing ↦ rw missing refl
      | inr (node, found) ↦
          let (r, m, entered, E) = enter_lem node.trafo w.matrices h e in
          rw (found, entered, E.value)
            (shown_agree fuel (draw_agrees fuel) (multiply parent node.trafo) (parent ∷ rest) m
              E.allocated E.stack _)
    ]

    -- With `parent` on top of the stack, `drawTraversal` does to the nodes and to WebGL what the
    -- recursion does that hands each node the product of `parent` and the matrices on its path, in
    -- any graph and also where a node is reached on several paths. It throws the same exception if
    -- that throws, and otherwise leaves a stack of the same matrices as it found.
    pub draw_traversal-draw_below :
        (fuel : ℕ) (parent : Mat4) (rest : List Mat4) (id : ℕ) (w : World p)
        → IsAllocated w.matrices
        → view w.matrices ≡ parent ∷ rest
        → Agrees
            (parent ∷ rest)
            (draw_below days fuel parent id w.scene)
            (draw_traversal days fuel id w)
    draw_traversal-draw_below fuel = draw_agrees fuel
