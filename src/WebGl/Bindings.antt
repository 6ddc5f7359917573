-- ===== src/WebGl/Bindings.antt =====
-- What a log of calls says about the state that a draw call meets: which buffer an attribute reads
-- from, and what was stored in it last. These functions state properties; the code has none of them.
use fhmuenster.Base.{ℕ, Bool, true, false, Option, none, some, List, [], ◌∷◌, ◌==◌, if◌then◌else◌}
use fhmuenster.Platform.{Platform, Vec4}
use fhmuenster.WebGl.{
  Uniform, uniform4, uniform1f, uniform_matrix4, uniform_matrix3, projection_matrix,
  model_view_matrix, normal_matrix, light_position, light_ambient, light_diffuse, light_specular,
  material_emission, material_ambient, material_diffuse, material_specular, material_shininess,
  sampler, Attribute, Call, bind_buffer, buffer_data, element_data, vertex_attrib_pointer,
  bind_texture, tex_image, array, element_array,
}

abbrev pub same_attribute : Attribute → Attribute → Bool
same_attribute Attribute.vertex_position Attribute.vertex_position = true
same_attribute Attribute.normal_position Attribute.normal_position = true
same_attribute Attribute.tex_coord Attribute.tex_coord = true
same_attribute _ _ = false

abbrev pub is_some_of : Option ℕ → ℕ → Bool
is_some_of none b = false
is_some_of (some a) b = a == b

module _ {p : Platform} where
  -- The buffer that the latest `bindBuffer(ARRAY_BUFFER, …)` names.
  abbrev pub array_buffer : List (Call p) → Option ℕ
  array_buffer [] = none
  array_buffer (bind_buffer array b ∷ log) = some b
  array_buffer (_ ∷ log) = array_buffer log

  abbrev pub element_buffer : List (Call p) → Option ℕ
  element_buffer [] = none
  element_buffer (bind_buffer element_array b ∷ log) = some b
  element_buffer (_ ∷ log) = element_buffer log

  -- The buffer that was bound when the attribute was last pointed at one.
  abbrev pub source : Attribute → List (Call p) → Option ℕ
  source a [] = none
  source a (vertex_attrib_pointer b n ∷ log) =
      if same_attribute a b then array_buffer log else source a log
  source a (_ ∷ log) = source a log

  -- The numbers that were last stored in a buffer.
  abbrev pub contents : ℕ → List (Call p) → Option (List p.R)
  contents b [] = none
  contents b (buffer_data xs ∷ log) =
      if is_some_of (array_buffer log) b then some xs else contents b log
  contents b (_ ∷ log) = contents b log

  abbrev pub elements : ℕ → List (Call p) → Option (List ℕ)
  elements b [] = none
  elements b (element_data xs ∷ log) =
      if is_some_of (element_buffer log) b then some xs else elements b log
  elements b (_ ∷ log) = elements b log

  -- The latest `bindTexture(TEXTURE_2D, …)`.
  abbrev pub bound_texture : List (Call p) → Option ℕ
  bound_texture [] = none
  bound_texture (bind_texture t ∷ log) = t
  bound_texture (_ ∷ log) = bound_texture log

module _ {p : Platform} where
  -- The image that was last loaded into a texture.
  abbrev pub image_of : (t : ℕ) → List (Call p) → Option ℕ
  image_of t [] = none
  image_of t (tex_image i ∷ log) =
      if is_some_of (bound_texture log) t then some i else image_of t log
  image_of t (_ ∷ log) = image_of t log

abbrev pub uniform_number : Uniform → ℕ
uniform_number projection_matrix = 0
uniform_number model_view_matrix = 1
uniform_number normal_matrix = 2
uniform_number light_position = 3
uniform_number light_ambient = 4
uniform_number light_diffuse = 5
uniform_number light_specular = 6
uniform_number material_emission = 7
uniform_number material_ambient = 8
uniform_number material_diffuse = 9
uniform_number material_specular = 10
uniform_number material_shininess = 11
uniform_number sampler = 12

module _ {p : Platform} where
  -- The latest value of a uniform.
  abbrev pub uniform4_value : Uniform → List (Call p) → Option (Vec4 p.R)
  uniform4_value u [] = none
  uniform4_value u (uniform4 v x ∷ log) =
      if uniform_number u == uniform_number v then some x else uniform4_value u log
  uniform4_value u (_ ∷ log) = uniform4_value u log

  abbrev pub uniform1f_value : Uniform → List (Call p) → Option p.R
  uniform1f_value u [] = none
  uniform1f_value u (uniform1f v x ∷ log) =
      if uniform_number u == uniform_number v then some x else uniform1f_value u log
  uniform1f_value u (_ ∷ log) = uniform1f_value u log

  abbrev pub matrix4_value : Uniform → List (Call p) → Option p.Mat4
  matrix4_value u [] = none
  matrix4_value u (uniform_matrix4 v x ∷ log) =
      if uniform_number u == uniform_number v then some x else matrix4_value u log
  matrix4_value u (_ ∷ log) = matrix4_value u log

  abbrev pub matrix3_value : Uniform → List (Call p) → Option p.Mat3
  matrix3_value u [] = none
  matrix3_value u (uniform_matrix3 v x ∷ log) =
      if uniform_number u == uniform_number v then some x else matrix3_value u log
  matrix3_value u (_ ∷ log) = matrix3_value u log
