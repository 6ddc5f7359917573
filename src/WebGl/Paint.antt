-- ===== src/WebGl/Paint.antt =====
-- Under which matrices, material, texture and light each draw call of a log runs.
use fhmuenster.Base.{
  none, ℕ, ◌≡◌, refl, Option, some, List, [], ◌∷◌, Bool, true, false, if◌then◌else◌,
}
use fhmuenster.Platform.{Platform, Vec4}
use fhmuenster.WebGl.{
  Gl, Call, ◌▷◌, alert, draw_elements, draw_arrays, light_position, light_ambient, light_diffuse,
  light_specular, material_emission, material_ambient, material_diffuse, material_specular,
  material_shininess, model_view_matrix, normal_matrix, projection_matrix,
}
use fhmuenster.WebGl.Bindings.{
  uniform4_value, uniform1f_value, matrix4_value, matrix3_value, bound_texture, image_of,
}
use fhmuenster.WebGlStart.{
  get_instance, start, webgl_start_example, init_shaders, create_shaders, report_link,
}
use fhmuenster.Light.{Light}
use fhmuenster.Material.{Material}

-- The light's four uniforms.
pub record Shine (p : Platform) : Type 0 where
  pub position : Option (Vec4 p.R)
  pub ambient : Option (Vec4 p.R)
  pub diffuse : Option (Vec4 p.R)
  pub specular : Option (Vec4 p.R)

-- The three matrices, the five uniforms of a material, the texture that is bound with its
-- image, and the light.
pub record Paint (p : Platform) : Type 0 where
  pub projection : Option p.Mat4
  pub place : Option p.Mat4
  pub normal : Option p.Mat3
  pub emission : Option (Vec4 p.R)
  pub ambient : Option (Vec4 p.R)
  pub diffuse : Option (Vec4 p.R)
  pub specular : Option (Vec4 p.R)
  pub shininess : Option p.R
  pub texture : Option ℕ
  pub image : Option ℕ
  pub light : Shine p

-- The paint in force, that of each draw call so far, latest first, the canvas's sides, how many
-- buffers there are, and the textures' images.
pub record Effect (p : Platform) : Type 0 where
  pub now : Paint p
  pub drawn : List (Paint p)
  pub size : p.R × p.R
  pub buffers : ℕ
  pub images : ℕ → Option ℕ

-- The image in the texture that is bound.
abbrev image_in : (images : ℕ → Option ℕ) (texture : Option ℕ) → Option ℕ
image_in images none = none
image_in images (some t) = images t

module _ {p : Platform} where
  abbrev shine : List (Call p) → Shine p
  shine log = record {
    position = uniform4_value light_position log;
    ambient = uniform4_value light_ambient log;
    diffuse = uniform4_value light_diffuse log;
    specular = uniform4_value light_specular log;
  }

  abbrev pub current : List (Call p) → Paint p
  current log = record {
    projection = matrix4_value projection_matrix log;
    place = matrix4_value model_view_matrix log;
    normal = matrix3_value normal_matrix log;
    emission = uniform4_value material_emission log;
    ambient = uniform4_value material_ambient log;
    diffuse = uniform4_value material_diffuse log;
    specular = uniform4_value material_specular log;
    shininess = uniform1f_value material_shininess log;
    texture = bound_texture log;
    image = image_in (λ t. image_of t log) (bound_texture log);
    light = shine log;
  }

  -- The paint of each draw call, latest first.
  abbrev pub painted : List (Call p) → List (Paint p)
  painted [] = []
  painted (draw_elements n ∷ log) = current log ∷ painted log
  painted (draw_arrays first n ∷ log) = current log ∷ painted log
  painted (_ ∷ log) = painted log

  -- The canvas's sides, which the start of WebGL takes from the window.
  abbrev pub canvas : Gl p → p.R × p.R
  canvas g = if g.started then (g.width, g.height) else (p.inner_width, p.inner_height)

  abbrev pub effect : Gl p → Effect p
  effect g = record {
    now = current g.log;
    drawn = painted g.log;
    size = canvas g;
    buffers = g.buffers;
    images = λ t. image_of t g.log;
  }

  alert_paint :
      (linked : Bool) (g : Gl p) (size : p.R × p.R)
      → Path
          (Effect p)
          (record (effect (if linked then g else g ▷ alert)) { size = size })
          (record (effect g) { size = size })
  alert_paint true g size = refl
  alert_paint false g size = refl

  by_start :
      (started : Bool) (g : Gl p)
      → let g0 : Gl p = record g { started = started } in effect (get_instance g0) ≡ effect g0
  unfolding get_instance start webgl_start_example init_shaders create_shaders report_link
  by_start true g = refl
  by_start false g = alert_paint p.links _ (p.inner_width, p.inner_height)

  pub effect-get_instance : (g : Gl p) → effect (get_instance g) ≡ effect g
  effect-get_instance g = by_start g.started g

  canvas_by_start :
      (started : Bool) (g : Gl p)
      → let g0 : Gl p = record g { started = started } in
        Path (p.R × p.R) ((get_instance g0).width, (get_instance g0).height) (canvas g0)
  unfolding get_instance start webgl_start_example init_shaders create_shaders report_link
  canvas_by_start true g = refl
  canvas_by_start false g = refl

  pub canvas-get_instance :
      (g : Gl p) → Path (p.R × p.R) ((get_instance g).width, (get_instance g).height) (canvas g)
  canvas-get_instance g = canvas_by_start g.started g

abbrev pub shine_of : {p : Platform} → Light p → Shine p
shine_of l = record {
  position = some l.worldposition;
  ambient = some l.ambient;
  diffuse = some l.diffuse;
  specular = some l.specular;
}

-- The paint of a material with a texture in a light, seen by a projection, at a place, with its
-- normal matrix.
abbrev pub paint :
    {p : Platform}
    → Material p
    → (texture : ℕ) (image : Option ℕ) (light : Shine p) (projection : Option p.Mat4) → p.Mat4
    → Paint p
paint {p} m t image light projection place = record {
  projection = projection;
  place = some place;
  normal = p.normal_from_mat4 place;
  emission = some m.emission;
  ambient = some m.ambient;
  diffuse = some m.diffuse;
  specular = some m.specular;
  shininess = some m.shininess;
  texture = some t;
  image = image;
  light = light;
}
