-- ===== src/Texture.antt =====
-- Computergrafik/src/texture/texture.ts: `class Texture`. An image is named by its source; the
-- browser answers `src` later by one `onload` or `onerror` event.
pub mod Upload
use fhmuenster.Base.{ℕ, none, some}
use fhmuenster.Platform.{Platform}
use fhmuenster.WebGl.{
  Gl, ◌▷◌, new_texture, active_texture, bind_texture, tex_parameter, tex_image, uniform1i,
  get_uniform_location, console_log, console_warn, sampler, mag_linear, min_nearest, wrap_s_clamp,
  wrap_t_clamp,
}
use fhmuenster.WebGlStart.{get_instance}

pub record Texture : Type 0 where
  pub texture : ℕ
  pub image : ℕ

pub data ImageEvent : Type 0 where
  onload onerror : ImageEvent

module _ {p : Platform} where
  -- The constructor, up to the assignment of the two handlers.
  unfoldable pub new_texture_node : ℕ → Gl p → Texture × Gl p
  new_texture_node src g =
      let g0 = get_instance g in (record { texture = g0.textures; image = src }, new_texture g0)

  unfoldable pub load_texture : (image texture : ℕ) → Gl p → Gl p
  load_texture image texture g =
      get_instance g
      ▷ bind_texture (some texture)
      ▷ tex_parameter mag_linear
      ▷ tex_parameter min_nearest
      ▷ tex_parameter wrap_s_clamp
      ▷ tex_parameter wrap_t_clamp
      ▷ tex_image image
      ▷ bind_texture none

  -- The handlers of the image.
  unfoldable pub on_image : Texture → ImageEvent → Gl p → Gl p
  unfolding load_texture
  on_image t onload g = load_texture t.image t.texture g ▷ console_log
  on_image t onerror g = g ▷ console_warn

  unfoldable pub draw : Texture → Gl p → Gl p
  draw t g =
      get_instance g
      ▷ active_texture 0
      ▷ bind_texture (some t.texture)
      ▷ get_uniform_location sampler
      ▷ uniform1i sampler 0
