-- ===== src/Texture/Upload.antt =====
-- The texture unit of `class Texture`.
use fhmuenster.Base.{ℕ, ◌≡◌, ◌≢◌, refl, arith, none, some, List, [], ◌∷◌}
use fhmuenster.Platform.{Platform}
use fhmuenster.WebGl.{
  Gl, Call, TexParameter, tex_image, tex_parameter, bind_texture, mag_linear, min_nearest,
  wrap_s_clamp, wrap_t_clamp, console_log, console_warn,
}
use fhmuenster.WebGl.Bindings.{bound_texture, image_of}
use fhmuenster.WebGlStart.{
  create_shaders, report_link, init_shaders, webgl_start_example, start, get_instance,
}
use fhmuenster.Texture.{Texture, onload, onerror, on_image, load_texture, draw}

module _ {p : Platform} where
  -- The parameters set since a texture was last bound, latest first.
  abbrev pub parameters : List (Call p) → List TexParameter
  parameters [] = []
  parameters (bind_texture t ∷ log) = []
  parameters (tex_parameter q ∷ log) = q ∷ parameters log
  parameters (_ ∷ log) = parameters log

  image_of-get_instance : (u : ℕ) (g : Gl p) → image_of u (get_instance g).log ≡ image_of u g.log
  unfolding get_instance start webgl_start_example init_shaders create_shaders report_link
  image_of-get_instance u g = ground arith

  -- When the image has loaded, its data goes to the node's own texture, which is bound with its two
  -- filters and its two wrap modes set, and afterwards no texture is bound: that texture then has
  -- the image, and every other texture `u` the one it had. An image that fails to load makes one
  -- warning and no other call. Each later `draw` binds the node's texture.
  pub on_image-upload :
      (t : Texture) (u : ℕ) (g h : Gl p)
      → u ≢ t.texture
      → ((log : List (Call p)) × ((on_image t onload g).log
            ≡ console_log ∷ bind_texture none ∷ tex_image t.image ∷ log)
          × (bound_texture log ≡ some t.texture)
          × (parameters log ≡ wrap_t_clamp ∷ wrap_s_clamp ∷ min_nearest ∷ mag_linear ∷ []))
        × (bound_texture (on_image t onload g).log ≡ none)
        × (image_of t.texture (on_image t onload g).log ≡ some t.image)
        × (image_of u (on_image t onload g).log ≡ image_of u g.log)
        × ((on_image t onerror g).log ≡ console_warn ∷ g.log)
        × (bound_texture (draw t h).log ≡ some t.texture)
  unfolding on_image load_texture draw
  on_image-upload t u g h other = (
    (_, refl, refl, refl),
    refl,
    ground arith,
    ground (arith, image_of-get_instance u g),
    refl,
    refl,
  )
