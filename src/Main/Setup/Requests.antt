-- ===== src/Main/Setup/Requests.antt =====
-- The animation frames that the script asks for while it creates the scene.
use fhmuenster.Base.{◌≡◌, refl, Bool, true, false, []}
use fhmuenster.Platform.{Platform}
use fhmuenster.WebGl.{Gl}
use fhmuenster.WebGl.Requests.{requested, alert_quiet}
use fhmuenster.WebGlStart.{
  get_instance, start, webgl_start_example, init_shaders, create_shaders, report_link,
}
use fhmuenster.SgNode.{add_child}
use fhmuenster.Light.{new_light}
use fhmuenster.Material.{new_material}
use fhmuenster.Texture.{new_texture_node}
use fhmuenster.Sphere
use fhmuenster.Sphere.{new_sphere}
use fhmuenster.Triangle
use fhmuenster.Square
use fhmuenster.Square.{new_square}
use fhmuenster.Triangle.{new_triangle}
use fhmuenster.CubeNode.{new_cube_node}
use fhmuenster.Main.Setup.{◌>>=◌, ◌>>◌, pure, create, create_with, edge, set_material, make_scene}

module _ (p : Platform) where
  by_start :
      (started : Bool) (g : Gl p)
      → requested (make_scene p (record { nodes = []; gl = record g { started = started } })).1.gl
        ≡ requested g
  unfolding make_scene add_child ◌>>=◌ ◌>>◌ pure create create_with edge set_material new_light
      new_material new_texture_node new_sphere new_cube_node new_square new_triangle
      Sphere.init_buffers Triangle.init_buffers Square.init_buffer get_instance start
      webgl_start_example init_shaders create_shaders report_link
  by_start true g = refl
  by_start false g = alert_quiet p.links _

  pub make_scene_quiet :
      (g : Gl p) → requested (make_scene p (record { nodes = []; gl = g })).1.gl ≡ requested g
  make_scene_quiet g = by_start g.started g
