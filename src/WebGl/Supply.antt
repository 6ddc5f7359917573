-- ===== src/WebGl/Supply.antt =====
-- Whether the buffers that a draw call reads from hold enough numbers for its vertices. The code has
-- none of this: WebGL refuses a draw call that reads outside of a buffer.
pub mod Stores
use mathlib.Core.Path.{subst}
use fhmuenster.Base.{
  if_both, ℕ, zero, suc, ◌+◌, ◌*◌, ◌≤◌, ◌<◌, ◌≡◌, refl, ◌∙◌, arith, Bool, true, false, Option, none,
  some, List, [], ◌∷◌, if◌then◌else◌, length, length-map, sym, All, All-map,
}
use fhmuenster.Platform.{Platform, float32_array}
use fhmuenster.WebGl.{
  Gl, Call, ◌▷◌, new_buffer, alert, draw_elements, draw_arrays, vertex_attrib_pointer, buffer_data,
  element_data, array, element_array, Attribute, vertex_position, normal_position, tex_coord,
}
use fhmuenster.WebGl.Bindings.{source, same_attribute, contents, elements, element_buffer}
use fhmuenster.WebGlStart.{
  get_instance, start, webgl_start_example, init_shaders, create_shaders, report_link,
}

abbrev pub range : (first count : ℕ) → List ℕ
range first zero = []
range first (suc n) = first ∷ range (first + 1) n

module _ {p : Platform} where
  -- The number of components in the latest pointer of an attribute.
  abbrev pub pointer_size : Attribute → List (Call p) → Option ℕ
  pointer_size a [] = none
  pointer_size a (vertex_attrib_pointer b n ∷ log) =
      if same_attribute a b then some n else pointer_size a log
  pointer_size a (_ ∷ log) = pointer_size a log

  -- The attribute reads from a buffer that holds all its components for the vertices `ks`.
  pub record Supplies (a : Attribute) (ks : List ℕ) (log : List (Call p)) : Type 0 where
    pub size : ℕ
    pub buffer : ℕ
    pub stored : List p.R
    pub pointed : pointer_size a log ≡ some size
    pub read : source a log ≡ some buffer
    pub held : contents buffer log ≡ some stored
    pub enough : All (λ k. size * k + size ≤ length stored) ks

  abbrev pub Supplied : List ℕ → List (Call p) → Type 0
  Supplied ks log =
      Supplies vertex_position ks log × Supplies normal_position ks log × Supplies tex_coord ks log

  -- A draw call of `n` indices reads them from a buffer that holds as many.
  pub record SuppliedIndices (n : ℕ) (log : List (Call p)) : Type 0 where
    pub buffer : ℕ
    pub indices : List ℕ
    pub bound : element_buffer log ≡ some buffer
    pub held : elements buffer log ≡ some indices
    pub enough : n ≤ length indices
    pub vertices : Supplied indices log

  -- Every draw call of a log is supplied.
  abbrev pub AllSupplied : List (Call p) → Type 0
  AllSupplied [] = Unit
  AllSupplied (draw_elements n ∷ log) = SuppliedIndices n log × AllSupplied log
  AllSupplied (draw_arrays first n ∷ log) = Supplied (range first n) log × AllSupplied log
  AllSupplied (_ ∷ log) = AllSupplied log

  -- No buffer that was there has changed.
  pub record Extends (g g' : Gl p) : Type 0 where
    pub grows : g.buffers ≤ g'.buffers
    pub stored : (b : ℕ) → b < g.buffers → contents b g'.log ≡ contents b g.log
    pub indexed : (b : ℕ) → b < g.buffers → elements b g'.log ≡ elements b g.log

  pub Extends-trans : {g g' g'' : Gl p} → Extends g g' → Extends g' g'' → Extends g g''
  Extends-trans {g} {g'} {g''} h k = record {
    grows = omega (arith, h.grows, k.grows);
    stored = λ b lt. k.stored b (omega (arith, h.grows)) ∙ h.stored b lt;
    indexed = λ b lt. k.indexed b (omega (arith, h.grows)) ∙ h.indexed b lt;
  }

  pub Extends-refl : (g : Gl p) → Extends g g
  Extends-refl g = record { grows = omega arith; stored = λ b lt. refl; indexed = λ b lt. refl }

  -- What a step must do for the draw calls: it changes no buffer that was there, and keeps them
  -- supplied.
  pub record Supports (g g' : Gl p) : Type 0 where
    pub extends : Extends g g'
    pub supplied : AllSupplied g.log → AllSupplied g'.log

  pub Supports-trans : {g g' g'' : Gl p} → Supports g g' → Supports g' g'' → Supports g g''
  Supports-trans {g} {g'} {g''} h k = record {
    extends = Extends-trans h.extends k.extends;
    supplied = λ s. k.supplied (h.supplied s);
  }

  pub Supports-refl : (g : Gl p) → Supports g g
  Supports-refl g = record { extends = Extends-refl g; supplied = λ s. s }

  -- Calls that store nothing and draw nothing.
  pub Supports-after :
      {g g' : Gl p} (g'' : Gl p)
      → Supports g g'
      → g''.buffers ≡ g'.buffers
      → ((b : ℕ) → contents b g''.log ≡ contents b g'.log)
      → ((b : ℕ) → elements b g''.log ≡ elements b g'.log)
      → (AllSupplied g'.log → AllSupplied g''.log)
      → Supports g g''
  Supports-after {g} {g'} g'' h same stored indexed supplied = record {
    extends = Extends-trans h.extends (record {
      grows = omega (arith, same);
      stored = λ b lt. stored b;
      indexed = λ b lt. indexed b;
    });
    supplied = λ s. supplied (h.supplied s);
  }

  alert-Supports : (linked : Bool) (g : Gl p) → Supports g (if linked then g else g ▷ alert)
  alert-Supports true g = Supports-refl g
  alert-Supports false g =
      Supports-after (g ▷ alert) (Supports-refl g) refl (λ b. refl) (λ b. refl) (λ s. s)

  start-Supports : (g : Gl p) → Supports g (start g)
  unfolding start webgl_start_example init_shaders create_shaders report_link
  start-Supports g =
      let a = alert-Supports p.links _ in
      record {
        extends = record {
          grows = a.extends.grows;
          stored = a.extends.stored;
          indexed = a.extends.indexed;
        };
        supplied = a.supplied;
      }

  pub get_instance-Supports : (g : Gl p) → Supports g (get_instance g)
  unfolding get_instance
  get_instance-Supports g = if_both (Supports g) g.started (Supports-refl g) (start-Supports g)

  -- A new buffer that is filled.
  pub filled-Supports :
      (xs : List p.R) (g : Gl p)
      → Supports g (new_buffer g ▷ Call.bind_buffer array g.buffers ▷ buffer_data xs)
  filled-Supports xs g = record {
    extends = record { grows = omega arith; stored = λ b lt. ground arith; indexed = λ b lt. refl };
    supplied = λ s. s;
  }

  pub indexed-Supports :
      (xs : List ℕ) (g : Gl p)
      → Supports g (new_buffer g ▷ Call.bind_buffer element_array g.buffers ▷ element_data xs)
  indexed-Supports xs g = record {
    extends = record { grows = omega arith; stored = λ b lt. refl; indexed = λ b lt. ground arith };
    supplied = λ s. s;
  }
