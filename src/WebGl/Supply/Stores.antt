-- ===== src/WebGl/Supply/Stores.antt =====
-- Buffers that are there for the draw calls to come.
use mathlib.Core.Path.{subst}
use fhmuenster.Base.{
  ℕ, ◌+◌, ◌*◌, ◌≤◌, ◌<◌, ◌≡◌, ◌∙◌, arith, some, List, length, length-map, sym, All, All-map,
}
use fhmuenster.Platform.{Platform, float32_array}
use fhmuenster.WebGl.{Gl, Call, Attribute}
use fhmuenster.WebGl.Bindings.{source, contents}
use fhmuenster.WebGl.Supply.{Supplies, Extends, pointer_size}

module _ {p : Platform} where
  -- A buffer that holds `size` numbers for each of the vertices `ks`.
  pub record Stores (size : ℕ) (ks : List ℕ) (b : ℕ) (g : Gl p) : Type 0 where
    pub created : b < g.buffers
    pub stored : List p.R
    pub held : contents b g.log ≡ some stored
    pub enough : All (λ k. size * k + size ≤ length stored) ks

  pub Stores-Extends :
      {size : ℕ} {ks : List ℕ} {b : ℕ} {g g' : Gl p}
      → Extends g g'
      → Stores size ks b g
      → Stores size ks b g'
  Stores-Extends {size} {ks} {b} {g} {g'} e h = record {
    created = omega (arith, h.created, e.grows);
    stored = h.stored;
    held = e.stored b h.created ∙ h.held;
    enough = h.enough;
  }

  -- A buffer that holds numbers rounded to 32 bits.
  pub rounded-Stores :
      {size : ℕ} {ks : List ℕ} {b : ℕ} {g : Gl p} (xs : List p.R)
      → b < g.buffers
      → contents b g.log ≡ some (float32_array p xs)
      → All (λ k. size * k + size ≤ length xs) ks
      → Stores size ks b g
  unfolding float32_array
  rounded-Stores {size} {ks} xs lt e h = record {
    created = lt;
    stored = float32_array p xs;
    held = e;
    enough =
        All-map
          (λ k (le : size * k + size ≤ length xs).
            subst (λ n. size * k + size ≤ n) (sym (length-map p.fround xs)) le)
          ks h;
  }

  -- An attribute that is pointed at such a buffer.
  pub Stores-Supplies :
      {a : Attribute} {size : ℕ} {ks : List ℕ} {b : ℕ} {g : Gl p} {log : List (Call p)}
      → Stores size ks b g
      → pointer_size a log ≡ some size
      → source a log ≡ some b
      → contents b log ≡ contents b g.log
      → Supplies a ks log
  Stores-Supplies {a} {size} {ks} {b} h pointed read same = record {
    size = size;
    buffer = b;
    stored = h.stored;
    pointed = pointed;
    read = read;
    held = same ∙ h.held;
    enough = h.enough;
  }
