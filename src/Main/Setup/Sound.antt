-- ===== src/Main/Setup/Sound.antt =====
-- The script's statements leave the nodes of a scene in a set of motions.
use fhmuenster.Base.{ℕ, [], All, All-append}
use fhmuenster.Platform.{Platform}
use fhmuenster.WebGl.{Gl}
use fhmuenster.SgNode.{Kind, Scene, add_child, light, material, texture, sphere, cube}
use fhmuenster.Scenegraph.Motions.{Motions, SoundKind, IsSound}
use fhmuenster.Main.Setup.{create, create_with, edge, make_scene}
use fhmuenster.Main.Setup.Script.{Keeps, KeepsNodes, push_child-All}
use fhmuenster.Main.Setup.Script.Program.{make_scene-Keeps}

module _ {p : Platform} (L : Motions p) where
  -- Every node is sound.
  AllSound : Scene p → Type 0
  AllSound s = All (IsSound L) s.nodes

  create-Keeps :
      (k : Kind p) (t : p.Mat4) → L.IsMotion t → SoundKind L k → Keeps AllSound (create k t)
  unfolding create AllSound
  create-Keeps k t m h = record {
    kept = λ s sound. All-append (IsSound L) s.nodes _ sound ((m, h), tt);
  }

  create_with-Keeps :
      {A : Type 0} (kind : A → Kind p) (build : Gl p → A × Gl p)
      → ((a : A) → SoundKind L (kind a))
      → Keeps AllSound (create_with kind build)
  unfolding create_with AllSound
  create_with-Keeps kind build h = record {
    kept =
        λ s sound. All-append (IsSound L) s.nodes _ sound ((L.create_motion, h (build s.gl).0), tt);
  }

  edge-Keeps : (parent child : ℕ) → Keeps AllSound (edge parent child)
  unfolding edge add_child AllSound
  edge-Keeps parent child = record {
    kept = λ s sound. push_child-All (IsSound L) (λ n cs h. h) parent child s.nodes sound;
  }

  AllSound-KeepsNodes : KeepsNodes AllSound L
  AllSound-KeepsNodes = record {
    edges = edge-Keeps;
    moving = λ k t _ m h. create-Keeps k t m h;
    lights = λ a b c d. create_with-Keeps light _ (λ _. tt);
    materials = λ m. create_with-Keeps material _ (λ _. tt);
    textures = λ src. create_with-Keeps texture _ (λ _. tt);
    spheres = λ radius. create_with-Keeps sphere _ (λ _. tt);
    cubes = λ h w d. create_with-Keeps cube _ (λ _. tt);
  }

  pub make_scene-IsSound :
      (g : Gl p) → All (IsSound L) (make_scene p (record { nodes = []; gl = g })).1.nodes
  unfolding AllSound
  make_scene-IsSound g =
      (make_scene-Keeps AllSound-KeepsNodes).kept (record { nodes = []; gl = g }) tt
