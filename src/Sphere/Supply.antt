-- ===== src/Sphere/Supply.antt =====
-- What the buffers of `class Sphere` hold for its draw call.
use fhmuenster.Base.{ℕ, ◌+◌, ◌*◌, ◌<◌, length, ◌≡◌, refl, ◌∙◌, some, List, arith, All-map}
use fhmuenster.Platform.{Platform}
use fhmuenster.WebGl.{Gl}
use fhmuenster.WebGl.Bindings.{elements}
use fhmuenster.WebGl.Supply.{
  Extends, Supports, Supports-trans, get_instance-Supports, filled-Supports, indexed-Supports,
  Supports-after,
}
use fhmuenster.WebGl.Supply.Stores.{Stores, Stores-Extends, rounded-Stores, Stores-Supplies}
use fhmuenster.WebGlStart.{get_instance}
use fhmuenster.Sphere.{
  Sphere, Mesh, new_sphere, draw, bind_buffers, index_data, mesh_data, init_buffers, latitude_bands,
  longitude_bands,
}
use fhmuenster.Sphere.Draw.{new_sphere-contents, new_sphere_bounds}

module _ {p : Platform} where
  -- The sphere's own buffers hold its indices and all that these name.
  pub record SphereStores (s : Sphere p) (g : Gl p) : Type 0 where
    pub created : s.index_buffer < g.buffers
    pub indices : elements s.index_buffer g.log ≡ some s.indices
    pub positions : Stores 3 s.indices s.vertex_position_buffer g
    pub normals : Stores 3 s.indices s.normal_position_buffer g
    pub textures : Stores 2 s.indices s.tex_coord_buffer g

  pub SphereStores-Extends :
      (s : Sphere p) {g g' : Gl p} → Extends g g' → SphereStores s g → SphereStores s g'
  SphereStores-Extends s e h = record {
    created = omega (arith, h.created, e.grows);
    indices = e.indexed s.index_buffer h.created ∙ h.indices;
    positions = Stores-Extends e h.positions;
    normals = Stores-Extends e h.normals;
    textures = Stores-Extends e h.textures;
  }

  -- The draw call of a sphere is supplied.
  pub draw-Supports : (s : Sphere p) (g : Gl p) → SphereStores s g → Supports g (draw s g)
  unfolding draw bind_buffers
  draw-Supports s g h =
      let start =
        Supports-trans (get_instance-Supports g) (get_instance-Supports (get_instance g)) in
      let there = SphereStores-Extends s start.extends h in
      Supports-after (draw s g) start refl (λ b. refl) (λ b. refl)
        λ before. (
          record {
            buffer = s.index_buffer;
            indices = s.indices;
            bound = refl;
            held = there.indices;
            enough = omega arith;
            vertices = (
              Stores-Supplies there.positions refl refl refl,
              Stores-Supplies there.normals refl refl refl,
              Stores-Supplies there.textures refl refl refl,
            );
          },
          before,
        )

  init_buffers-Supports :
      (height : p.R) (mesh : Mesh p.R) (indices : List ℕ) (g : Gl p)
      → let (s, g') = init_buffers height mesh indices g in
        Supports g g'
        × (s.vertex_position_buffer < g'.buffers)
        × (s.normal_position_buffer < g'.buffers)
        × (s.tex_coord_buffer < g'.buffers)
        × (s.index_buffer < g'.buffers)
  unfolding init_buffers
  init_buffers-Supports height mesh indices g = (
    Supports-trans (get_instance-Supports g) (
        Supports-trans (filled-Supports _ _) (
          Supports-trans (indexed-Supports _ _)
            (Supports-trans (filled-Supports _ _) (filled-Supports _ _)))),
    omega arith,
    omega arith,
    omega arith,
    omega arith,
  )

  new_sphere-Supports :
      (radius : p.R) (g : Gl p)
      → let (s, g') = new_sphere radius g in
        Supports g g'
        × (s.vertex_position_buffer < g'.buffers)
        × (s.normal_position_buffer < g'.buffers)
        × (s.tex_coord_buffer < g'.buffers)
        × (s.index_buffer < g'.buffers)
  unfolding new_sphere
  new_sphere-Supports radius g =
      init_buffers-Supports (p.mul (p.of_ℕ 2) radius)
        (mesh_data p radius latitude_bands longitude_bands)
        (index_data latitude_bands longitude_bands) g

  -- The constructor fills its buffers with what every draw call needs.
  pub new_sphere-Stores :
      (radius : p.R) (g : Gl p)
      → let (s, g') = new_sphere radius g in Supports g g' × SphereStores s g'
  new_sphere-Stores radius g =
      let (s, g') = new_sphere radius g in
      let (positions, normals, textures, indices) = new_sphere-contents radius g in
      let bounds = (new_sphere_bounds radius g).0 in
      let (supports, p0, p1, p2, p3) = new_sphere-Supports radius g in
      let Bounds : ℕ → Type 0 = λ k.
        (3 * k + 2 < length s.mesh.vertex_positions)
        × (3 * k + 2 < length s.mesh.normal_positions)
        × (2 * k + 1 < length s.mesh.tex) in
      (
        supports,
        record {
          created = p3;
          indices = indices;
          positions =
              rounded-Stores s.mesh.vertex_positions p0 positions
                (All-map (λ k (b : Bounds k). omega (arith, b.0)) s.indices bounds);
          normals =
              rounded-Stores s.mesh.normal_positions p1 normals
                (All-map (λ k (b : Bounds k). omega (arith, b.1)) s.indices bounds);
          textures =
              rounded-Stores s.mesh.tex p2 textures
                (All-map (λ k (b : Bounds k). omega (arith, b.2)) s.indices bounds);
        },
      )
