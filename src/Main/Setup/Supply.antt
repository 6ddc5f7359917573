-- ===== src/Main/Setup/Supply.antt =====
-- The buffers that the script fills, beside the draw calls to come.
use fhmuenster.Base.{ℕ, refl, [], All-append}
use fhmuenster.Platform.{Platform}
use fhmuenster.WebGl.{Gl}
use fhmuenster.WebGl.Supply.{AllSupplied, Supports, Supports-after, get_instance-Supports}
use fhmuenster.Light.{new_light}
use fhmuenster.Material.{new_material}
use fhmuenster.Texture.{new_texture_node}
use fhmuenster.Sphere.{new_sphere}
use fhmuenster.Sphere.Supply.{new_sphere-Stores}
use fhmuenster.CubeNode.{new_cube_node}
use fhmuenster.CubeNode.Supply.{new_cube_node-Stores}
use fhmuenster.SgNode.{
  Kind, add_child, camera, orbit, planet, light, material, texture, sphere, cube,
}
use fhmuenster.Scenegraph.Motions.{everything}
use fhmuenster.Scenegraph.Supply.{IsSupplied, IsSupplied-Supports, NodeStores, KindStores}
use fhmuenster.Main.Setup.{create, create_with, edge, make_scene}
use fhmuenster.Main.Setup.Script.{Keeps, KeepsNodes, IsMoving, push_child-All}
use fhmuenster.Main.Setup.Script.Program.{make_scene-Keeps}

module _ {p : Platform} where
  create-Keeps : (k : Kind p) (t : p.Mat4) → IsMoving k → Keeps (IsSupplied {p = p}) (create k t)
  unfolding create
  create-Keeps k t m = record {
    kept = λ s h. record {
      drawn = h.drawn;
      nodes = All-append (NodeStores s.gl) s.nodes _ h.nodes (stores s.gl k m, tt);
    };
  }
    where
      stores : (g : Gl p) (k : Kind p) → IsMoving k → KindStores g k
      stores g (camera c) m = tt
      stores g (orbit o) m = tt
      stores g (planet o) m = tt
      stores g k m = absurd m

  create_with-Keeps :
      {A : Type 0} (kind : A → Kind p) (build : Gl p → A × Gl p)
      → ((g : Gl p) → Supports g (build g).1 × KindStores (build g).1 (kind (build g).0))
      → Keeps (IsSupplied {p = p}) (create_with kind build)
  unfolding create_with
  create_with-Keeps kind build made = record {
    kept = λ s h.
        let (supports, stores) = made s.gl in
        let before = IsSupplied-Supports s (build s.gl).1 supports h in
        record {
          drawn = before.drawn;
          nodes = All-append (NodeStores (build s.gl).1) s.nodes _ before.nodes (stores, tt);
        };
  }

  edge-Keeps : (parent child : ℕ) → Keeps (IsSupplied {p = p}) (edge parent child)
  unfolding edge add_child
  edge-Keeps parent child = record {
    kept = λ s h. record {
      drawn = h.drawn;
      nodes = push_child-All (NodeStores s.gl) (λ n cs k. k) parent child s.nodes h.nodes;
    };
  }

  IsSupplied-KeepsNodes : KeepsNodes IsSupplied (everything p)
  unfolding new_light new_material new_texture_node
  IsSupplied-KeepsNodes = record {
    edges = edge-Keeps;
    moving = λ k t m _ _. create-Keeps k t m;
    lights = λ a b c d.
        create_with-Keeps light (new_light a b c d) λ g.
          (Supports-after _ (get_instance-Supports g) refl (λ b. refl) (λ b. refl) (λ s. s), tt);
    materials = λ m.
        create_with-Keeps material (new_material m) λ g.
          (Supports-after _ (get_instance-Supports g) refl (λ b. refl) (λ b. refl) (λ s. s), tt);
    textures = λ src.
        create_with-Keeps texture (new_texture_node src) λ g.
          (Supports-after _ (get_instance-Supports g) refl (λ b. refl) (λ b. refl) (λ s. s), tt);
    spheres = λ radius. create_with-Keeps sphere (new_sphere radius) (new_sphere-Stores radius);
    cubes = λ h w d. create_with-Keeps cube (new_cube_node h w d) (new_cube_node-Stores h w d);
  }

  pub make_scene-IsSupplied :
      (g : Gl p) → AllSupplied g.log → IsSupplied (make_scene p (record { nodes = []; gl = g })).1
  make_scene-IsSupplied g h =
      (make_scene-Keeps IsSupplied-KeepsNodes).kept (record { nodes = []; gl = g })
        (record { drawn = h; nodes = tt })
