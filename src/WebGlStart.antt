-- ===== src/WebGlStart.antt =====
-- Computergrafik/src/triangle/webglstart.ts: `class WebGLStart`, the singleton that owns the
-- rendering context. The page has a canvas with a WebGL context.
use fhmuenster.Base.{◌≡◌, true, arith, if◌then◌else◌}
use fhmuenster.Platform.{Platform}
use fhmuenster.WebGl.{
  Gl, Shader, ◌▷◌, create_shader, shader_source, compile_shader, create_program, attach_shader,
  link_program, alert, use_program, get_attrib_location, enable_attrib, get_uniform_location,
  clear_color, enable, console_log, vertex_position, normal_position, tex_coord, projection_matrix,
  model_view_matrix, normal_matrix, vertex_shader, fragment_shader, depth_test, cull_face,
}

module _ {p : Platform} where
  unfoldable pub create_shaders : Shader → Gl p → Gl p
  create_shaders s g = g ▷ create_shader s ▷ shader_source s ▷ compile_shader s

  unfoldable pub report_link : Gl p → Gl p
  report_link g = if p.links then g else g ▷ alert

  unfoldable pub init_shaders : Gl p → Gl p
  unfolding create_shaders report_link
  init_shaders g =
      let shaders = create_shaders fragment_shader (create_shaders vertex_shader g) in
      let linked = report_link (
        shaders
        ▷ create_program
        ▷ attach_shader vertex_shader
        ▷ attach_shader fragment_shader
        ▷ link_program) in
      linked
      ▷ use_program
      ▷ get_attrib_location vertex_position
      ▷ enable_attrib vertex_position
      ▷ get_attrib_location normal_position
      ▷ enable_attrib normal_position
      ▷ get_attrib_location tex_coord
      ▷ enable_attrib tex_coord
      ▷ get_uniform_location projection_matrix
      ▷ get_uniform_location model_view_matrix
      ▷ get_uniform_location normal_matrix

  unfoldable pub webgl_start_example : Gl p → Gl p
  unfolding init_shaders
  webgl_start_example g =
      let ready = init_shaders g ▷ clear_color ▷ enable depth_test ▷ enable cull_face in
      record ready { width = p.inner_width; height = p.inner_height } ▷ console_log ▷ console_log

  -- The private constructor, with the assignment to `WebGLStart.instance`.
  unfoldable pub start : Gl p → Gl p
  unfolding webgl_start_example
  start g = record (webgl_start_example g) { started = true }

  -- `WebGLStart.getInstance`.
  unfoldable pub get_instance : Gl p → Gl p
  unfolding start
  get_instance g = if g.started then g else start g

  -- The second call finds the instance.
  pub get_instance-started : (g : Gl p) → g.started ≡ true → get_instance g ≡ g
  unfolding get_instance
  get_instance-started g h = ground arith

  pub started-get_instance : (g : Gl p) → (get_instance g).started ≡ true
  unfolding get_instance start
  started-get_instance g = ground arith

  -- `getInstance` initialises WebGL at most once: it leaves an instance behind, and a second call
  -- changes nothing.
  pub get_instance_once :
      (g : Gl p)
      → (get_instance (get_instance g) ≡ get_instance g) × ((get_instance g).started ≡ true)
  get_instance_once g =
      (get_instance-started (get_instance g) (started-get_instance g), started-get_instance g)
