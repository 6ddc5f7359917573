-- ===== src/MatrixStack/View.antt =====
-- `class MatrixStack` as a stack of matrices by value: `view` forgets the references.
use fhmuenster.Base.{ℕ, ◌+◌, ◌<◌, ◌≤◌, ◌≡◌, refl, ◌∙◌, none, some, List, [], ◌∷◌, map, arith, All}
use fhmuenster.MatrixStack.{Matrices, update, push, pop, write, clone_popped}

pub All-lt-suc : (r k : ℕ) (rs : List ℕ) → r < k → All (λ q. q < r) rs → All (λ q. q < k) rs
All-lt-suc r k [] lt h = tt
All-lt-suc r k (q ∷ rs) lt h = (omega arith, All-lt-suc r k rs lt h.1)

module _ {M : Type 0} where
  abbrev pub view : Matrices M → List M
  view m = map m.cell m.items

  -- Every reference on the stack is to an allocated matrix.
  abbrev pub IsAllocated : Matrices M → Type 0
  IsAllocated m = All (λ r. r < m.next) m.items

  pub map-update :
      (f : ℕ → M) (r : ℕ) (a : M) (rs : List ℕ)
      → All (λ q. q < r) rs
      → map (update f r a) rs ≡ map f rs
  map-update f r a [] h = refl
  map-update f r a (q ∷ rs) h = ground (arith, map-update f r a rs h.1)

  -- `push` puts the matrix in front of the stack that was there.
  pub push_lem :
      (a : M) (m : Matrices M)
      → IsAllocated m
      → IsAllocated (push a m) × (view (push a m) ≡ a ∷ view m)
  unfolding push
  push_lem a m h = (
    (omega arith, All-lt-suc m.next (m.next + 1) m.items (omega arith) h),
    ground (arith, map-update m.cell m.next a m.items h),
  )

  -- What a successful `pop` does: the matrix on top is read through a new reference, which is on
  -- no place of the stack, and the stack is the rest.
  pub record Popped (a : M) (rest : List M) (r : ℕ) (m : Matrices M) : Type 0 where
    pub value : m.cell r ≡ a
    pub below : view m ≡ rest
    pub allocated : r < m.next
    pub fresh : All (λ q. q < r) m.items

  pub pop_lem :
      (m : Matrices M) {a : M} {rest : List M}
      → IsAllocated m
      → view m ≡ a ∷ rest
      → (r : ℕ) × (m' : Matrices M) × (pop m ≡ some (r, m')) × Popped a rest r m'
  unfolding pop clone_popped
  pop_lem m h e = go m.items h e
    where
      go :
          (items : List ℕ) {a : M} {rest : List M}
          → All (λ q. q < m.next) items
          → map m.cell items ≡ a ∷ rest
          → (r : ℕ) × (m' : Matrices M) × (clone_popped items m ≡ some (r, m')) × Popped a rest r m'
      go [] h e = cc
      go (q ∷ items) h e = (
        m.next,
        record m { next = m.next + 1; cell = update m.cell m.next (m.cell q); items = items },
        refl,
        record {
          value = ground arith;
          below = ground (arith, map-update m.cell m.next (m.cell q) items h.1);
          allocated = omega arith;
          fresh = h.1;
        },
      )

  -- An empty stack makes `pop` throw.
  pub pop_empty : (m : Matrices M) → view m ≡ [] → pop m ≡ none
  unfolding pop clone_popped
  pop_empty m e = go m.items e
    where
      go : (items : List ℕ) → map m.cell items ≡ [] → clone_popped items m ≡ none
      go [] e = refl
      go (q ∷ items) e = cc

  -- After any `push`, `pop` gives a new reference, to no matrix that was allocated before, where an
  -- equal matrix is read, and the stack as it was. Whatever is written through that reference
  -- afterwards, the stack keeps its matrices, and so does the reference that was pushed.
  pub pop-push :
      (a b : M) (m : Matrices M)
      → IsAllocated m
      → (r : ℕ) × (m' : Matrices M) × (pop (push a m) ≡ some (r, m'))
        × ((push a m).next ≤ r)
        × (r < m'.next)
        × (m'.cell r ≡ a)
        × (view m' ≡ view m)
        × (view (write r b m') ≡ view m)
        × ((write r b m').cell m.next ≡ a)
        × ((write r b m').cell r ≡ b)
  unfolding push pop clone_popped write
  pop-push a b m h =
      let pushed = push a m in
      let r = pushed.next in
      let older = All-lt-suc m.next r m.items (omega arith) h in
      let below = map-update m.cell m.next a m.items h in
      let popped = map-update pushed.cell r a m.items older ∙ below in
      (
        r,
        record pushed { next = r + 1; cell = update pushed.cell r a; items = m.items },
        ground arith,
        omega arith,
        omega arith,
        ground arith,
        popped,
        map-update (update pushed.cell r a) r b m.items older ∙ popped,
        ground arith,
        ground arith,
      )

  -- A popped matrix is put back by `push` and then written to: the stack keeps the old value.
  pub push-write :
      (b : M) {a : M} {rest : List M} {r : ℕ} {m : Matrices M}
      → Popped a rest r m
      → let m2 = push (m.cell r) m in
        let m3 = write r b m2 in
        (m2.cell r ≡ a) × (m3.cell r ≡ b) × (view m3 ≡ a ∷ rest) × IsAllocated m3 × (r < m3.next)
  unfolding push write
  push-write b {a} {rest} {r} {m} p =
      let lt : r < m.next = p.allocated in
      let old = map-update (update m.cell m.next (m.cell r)) r b m.items p.fresh in
      let older =
        map-update m.cell m.next (m.cell r) m.items (All-lt-suc r m.next m.items lt p.fresh) in
      (
        ground (arith, p.value),
        ground arith,
        ground (arith, p.value, old, older, p.below),
        (omega arith, All-lt-suc r (m.next + 1) m.items (omega arith) p.fresh),
        omega arith,
      )

  pub push-cell : (b : M) (m : Matrices M) {r : ℕ} → r < m.next → (push b m).cell r ≡ m.cell r
  unfolding push
  push-cell b m lt = ground arith
