-- ===== src/Scenegraph/Supply.antt =====
-- The draw calls of a traversal, beside what the buffers hold.
use fhmuenster.Base.{
  ℕ, ◌≡◌, refl, Option, none, some, List, get_elem?, All, All-map, All-set, All-get_elem?,
}
use fhmuenster.Platform.{Platform}
use fhmuenster.WebGl.{Gl, ◌▷◌, uniform_matrix4, uniform_matrix3, model_view_matrix, normal_matrix}
use fhmuenster.WebGl.Supply.{
  AllSupplied, Extends, Supports, Supports-refl, Supports-trans, Supports-after,
  get_instance-Supports,
}
use fhmuenster.WebGlStart.{get_instance}
use fhmuenster.Camera
use fhmuenster.Camera.{with_view, moved}
use fhmuenster.Light
use fhmuenster.Material
use fhmuenster.Texture
use fhmuenster.Sphere
use fhmuenster.Sphere.Supply
use fhmuenster.Sphere.Supply.{SphereStores, SphereStores-Extends}
use fhmuenster.CubeNode
use fhmuenster.CubeNode.Supply.{SquaresStore, SquaresStore-Extends}
use fhmuenster.SgNode.{
  Kind, Node, Scene, draw_kind, drawn_camera, update_light, plain, component, camera, orbit, planet,
  light, material, texture, sphere, cube,
}
use fhmuenster.Scenegraph.{ok, ◌>>=◌, or_throw, show, put_back}
use fhmuenster.Scenegraph.Holds.{Holds, or_throw-Holds, IsKept}

module _ {p : Platform} where
  -- What the buffers of a node hold for its draw calls.
  abbrev pub KindStores : Gl p → Kind p → Type 0
  KindStores g (sphere s) = SphereStores s g
  KindStores g (cube c) = SquaresStore c.squares g
  KindStores g k = Unit

  abbrev pub NodeStores : Gl p → Node p → Type 0
  NodeStores g n = KindStores g n.kind

  KindStores-Extends : {g g' : Gl p} (k : Kind p) → Extends g g' → KindStores g k → KindStores g' k
  KindStores-Extends (sphere s) e h = SphereStores-Extends s e h
  KindStores-Extends (cube c) e h = SquaresStore-Extends c.squares e h
  KindStores-Extends plain e h = tt
  KindStores-Extends (component name) e h = tt
  KindStores-Extends (camera c) e h = tt
  KindStores-Extends (orbit o) e h = tt
  KindStores-Extends (planet o) e h = tt
  KindStores-Extends (light l) e h = tt
  KindStores-Extends (material m) e h = tt
  KindStores-Extends (texture t) e h = tt

  pub All-NodeStores :
      {g g' : Gl p} (ns : List (Node p))
      → Extends g g'
      → All (NodeStores g) ns
      → All (NodeStores g') ns
  All-NodeStores {g} ns e h = All-map (λ n (k : NodeStores g n). KindStores-Extends n.kind e k) ns h

  -- Every draw call so far has been supplied, and those of the nodes will be.
  pub record IsSupplied (s : Scene p) : Type 0 where
    pub drawn : AllSupplied s.gl.log
    pub nodes : All (NodeStores s.gl) s.nodes

  -- Calls that leave the nodes as they are.
  pub IsSupplied-Supports :
      (s : Scene p) (g : Gl p) → Supports s.gl g → IsSupplied s → IsSupplied (record s { gl = g })
  IsSupplied-Supports s g h k = record {
    drawn = h.supplied k.drawn;
    nodes = All-NodeStores s.nodes h.extends k.nodes;
  }

  -- A node's `draw` is supplied, and so is its next.
  abbrev Draws : Gl p → Option (Kind p × p.Mat4 × Gl p) → Type 0
  Draws g none = Unit
  Draws g (some (k, m, g')) = Supports g g' × KindStores g' k

  with_view-Draws :
      (lens matrix t : p.Mat4) (c : Camera.Camera p) (g0 g : Gl p) (o : Option p.Mat4)
      → Supports g0 g
      → Draws g0 (drawn_camera t (with_view lens matrix c g o))
  with_view-Draws lens matrix t c g0 g none h = tt
  with_view-Draws lens matrix t c g0 g (some view) h =
      (Supports-after _ h refl (λ b. refl) (λ b. refl) (λ s. s), tt)

  draw_kind-Draws :
      (days : p.R) (k : Kind p) (t : p.Mat4) (g : Gl p)
      → KindStores g k
      → Draws g (draw_kind days k t g)
  unfolding draw_kind Camera.draw Light.draw Material.draw Texture.draw
  draw_kind-Draws days plain t g h = (Supports-refl g, tt)
  draw_kind-Draws days (component name) t g h = (Supports-refl g, tt)
  draw_kind-Draws days (camera c) t g h =
      with_view-Draws _ (moved c) t c g (get_instance g) (p.invert (moved c))
        (get_instance-Supports g)
  draw_kind-Draws days (orbit o) t g h = (Supports-refl g, tt)
  draw_kind-Draws days (planet o) t g h = (Supports-refl g, tt)
  draw_kind-Draws days (light l) t g h =
      (Supports-after _ (get_instance-Supports g) refl (λ b. refl) (λ b. refl) (λ s. s), tt)
  draw_kind-Draws days (material m) t g h =
      (Supports-after _ (get_instance-Supports g) refl (λ b. refl) (λ b. refl) (λ s. s), tt)
  draw_kind-Draws days (texture x) t g h =
      (Supports-after _ (get_instance-Supports g) refl (λ b. refl) (λ b. refl) (λ s. s), tt)
  draw_kind-Draws days (sphere s) t g h =
      let drawn = Sphere.Supply.draw-Supports s g h in
      (drawn, SphereStores-Extends s drawn.extends h)
  draw_kind-Draws days (cube c) t g h = CubeNode.Supply.draw-Supports c g h

  update_light-KindStores :
      (g : Gl p) (world : p.Mat4) (k : Kind p)
      → KindStores g k
      → KindStores g (update_light world k)
  unfolding update_light
  update_light-KindStores g world (light l) h = tt
  update_light-KindStores g world plain h = h
  update_light-KindStores g world (component name) h = h
  update_light-KindStores g world (camera c) h = h
  update_light-KindStores g world (orbit o) h = h
  update_light-KindStores g world (planet o) h = h
  update_light-KindStores g world (material m) h = h
  update_light-KindStores g world (texture x) h = h
  update_light-KindStores g world (sphere s) h = h
  update_light-KindStores g world (cube c) h = h

  show-IsSupplied :
      (days : p.R) (world : p.Mat4) (id : ℕ) (n : Node p) (s : Scene p)
      → get_elem? s.nodes id ≡ some n
      → IsSupplied s
      → Holds (λ r. IsSupplied r.1) (show days world id n s)
  unfolding show
  show-IsSupplied days world id n s found h =
      or_throw-Holds (λ (r : Node p × Scene p). IsSupplied r.1) (p.normal_from_mat4 world) _
        λ normal upright.
          let g =
            s.gl ▷ uniform_matrix4 model_view_matrix world ▷ uniform_matrix3 normal_matrix normal in
          let set = Supports-after g (Supports-refl s.gl) refl (λ b. refl) (λ b. refl) (λ s. s) in
          let stores = update_light-KindStores g world n.kind (
            KindStores-Extends n.kind set.extends
              (All-get_elem? (NodeStores s.gl) s.nodes id h.nodes found)) in
          put set (draw_kind days (update_light world n.kind) n.trafo g)
            (draw_kind-Draws days (update_light world n.kind) n.trafo g stores)
    where
      put :
          {g : Gl p}
          → Supports s.gl g
          → (drawn : Option (Kind p × p.Mat4 × Gl p)) → Draws g drawn
          → Holds (λ r. IsSupplied r.1) (or_throw drawn >>= λ d. ok (put_back id n s d))
      put set none d = tt
      put set (some (k, t, g')) (supports, stores) =
          let all = Supports-trans set supports in
          record {
            drawn = all.supplied h.drawn;
            nodes =
                All-set (NodeStores g') s.nodes id (record n { kind = k; trafo = t })
                  (All-NodeStores s.nodes all.extends h.nodes) stores;
          }

  pub IsSupplied-IsKept : IsKept {p = p} IsSupplied
  IsSupplied-IsKept = record {
    started = λ s h. IsSupplied-Supports s (get_instance s.gl) (get_instance-Supports s.gl) h;
    shown = show-IsSupplied;
  }
