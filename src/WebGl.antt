-- ===== src/WebGl.antt =====
-- The calls that Computergrafik/src makes of WebGL, kept in a log, latest first. A buffer or
-- texture is named by the number of buffers or textures created before it, and a location of
-- the shader program by the name that it is looked up with.
pub mod Bindings
pub mod Requests
pub mod Paint
pub mod Supply
use fhmuenster.Base.{ℕ, ◌+◌, Bool, Option, List, ◌∷◌}
use fhmuenster.Platform.{Platform, Vec4}

pub data Target : Type 0 where
  array element_array : Target

pub data Attribute : Type 0 where
  vertex_position normal_position tex_coord : Attribute

pub data Uniform : Type 0 where
  projection_matrix model_view_matrix normal_matrix : Uniform
  light_position light_ambient light_diffuse light_specular : Uniform
  material_emission material_ambient material_diffuse material_specular : Uniform
  material_shininess sampler : Uniform

pub data Shader : Type 0 where
  vertex_shader fragment_shader : Shader

pub data Capability : Type 0 where
  depth_test cull_face : Capability

pub data TexParameter : Type 0 where
  mag_linear min_nearest wrap_s_clamp wrap_t_clamp : TexParameter

-- What a call is made of: the context's methods, and `alert`, `console` and the frame request.
pub data Call (p : Platform) : Type 0 where
  create_buffer : ℕ → Call p
  bind_buffer : Target → ℕ → Call p
  buffer_data : List p.R → Call p
  element_data : List ℕ → Call p
  vertex_attrib_pointer : Attribute → ℕ → Call p
  draw_elements : ℕ → Call p
  draw_arrays : ℕ → ℕ → Call p
  uniform_matrix4 : Uniform → p.Mat4 → Call p
  uniform_matrix3 : Uniform → p.Mat3 → Call p
  uniform4 : Uniform → Vec4 p.R → Call p
  -- `uniform4f` at a location that was never set, which WebGL ignores.
  uniform4_nowhere : Vec4 p.R → Call p
  uniform1f : Uniform → p.R → Call p
  uniform1i : Uniform → ℕ → Call p
  create_texture : ℕ → Call p
  active_texture : ℕ → Call p
  bind_texture : Option ℕ → Call p
  tex_parameter : TexParameter → Call p
  tex_image : ℕ → Call p
  viewport : p.R → p.R → Call p
  clear : Call p
  create_shader : Shader → Call p
  shader_source : Shader → Call p
  compile_shader : Shader → Call p
  create_program : Call p
  attach_shader : Shader → Call p
  link_program : Call p
  alert : Call p
  use_program : Call p
  get_attrib_location : Attribute → Call p
  enable_attrib : Attribute → Call p
  get_uniform_location : Uniform → Call p
  clear_color : Call p
  enable : Capability → Call p
  console_log : Call p
  console_warn : Call p
  request_animation_frame : Call p

-- The singleton `WebGLStart.instance` (`started` when it exists), the size of its canvas, what
-- WebGL has handed out, and the calls made so far.
pub record Gl (p : Platform) : Type 0 where
  pub started : Bool
  pub width : p.R
  pub height : p.R
  pub buffers : ℕ
  pub textures : ℕ
  pub log : List (Call p)

module _ {p : Platform} where
  infixl 20 ◌▷◌
  abbrev pub ◌▷◌ : Gl p → Call p → Gl p
  g ▷ c = record g { log = c ∷ g.log }

  -- `gl.createBuffer()`; the new buffer is `g.buffers`.
  abbrev pub new_buffer : Gl p → Gl p
  new_buffer g = record g { buffers = g.buffers + 1; log = create_buffer g.buffers ∷ g.log }

  abbrev pub new_texture : Gl p → Gl p
  new_texture g = record g { textures = g.textures + 1; log = create_texture g.textures ∷ g.log }
