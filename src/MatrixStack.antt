-- ===== src/MatrixStack.antt =====
-- Computergrafik/src/matrixstack/matrixstack.ts: `class MatrixStack`. Its entries are references
-- to matrices on a heap, since `mat4.clone` is what keeps a matrix on the stack apart from the
-- matrix that the caller goes on writing to.
pub mod View
use fhmuenster.Base.{ℕ, ◌+◌, Option, none, some, List, [], ◌∷◌, ◌==◌, if◌then◌else◌}

-- The matrices allocated so far (`next` of them) and the array `matrixStack`, its end first.
pub record Matrices (M : Type 0) : Type 0 where
  pub next : ℕ
  pub cell : ℕ → M
  pub items : List ℕ

abbrev pub update : {M : Type 0} → (ℕ → M) → ℕ → M → ℕ → M
update f r a q = if r == q then a else f q

module _ {M : Type 0} where
  abbrev pub clone : M → Matrices M → Matrices M
  clone a m = record m { next = m.next + 1; cell = update m.cell m.next a }

  -- `mat4.clone(mat)` is the cell `m.next`.
  unfoldable pub push : M → Matrices M → Matrices M
  push a m = record (clone a m) { items = m.next ∷ m.items }

  clone_popped : List ℕ → Matrices M → Option (ℕ × Matrices M)
  clone_popped [] m = none
  clone_popped (r ∷ items) m = some (m.next, record (clone (m.cell r) m) { items = items })

  -- `none` is the TypeError of `mat4.clone(undefined)` when the stack is empty. The result is the
  -- reference to the clone.
  pub pop : Matrices M → Option (ℕ × Matrices M)
  unfolding clone_popped
  pop m = clone_popped m.items m

  -- An in-place operation of gl-matrix with the reference `r` for its output.
  pub write : ℕ → M → Matrices M → Matrices M
  write r a m = record m { cell = update m.cell r a }
