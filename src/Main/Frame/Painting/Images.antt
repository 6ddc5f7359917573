-- ===== src/Main/Frame/Painting/Images.antt =====
-- The end of an image's loading, for the canvas, the buffers and the textures.
use fhmuenster.Base.{Option, ℕ, ◌≡◌, refl, ap}
use fhmuenster.Platform.{Platform}
use fhmuenster.WebGl.{Gl}
use fhmuenster.WebGl.Bindings.{image_of}
use fhmuenster.WebGl.Paint.{Effect, canvas, effect-get_instance}
use fhmuenster.Texture.{Texture, ImageEvent, onload, onerror, on_image, load_texture}
use fhmuenster.Main.Frame.Pose.{loaded}

pub canvas-on_image :
    {p : Platform} (t : Texture) (e : ImageEvent) (g : Gl p) → canvas (on_image t e g) ≡ canvas g
unfolding on_image load_texture
canvas-on_image t onload g = ap (λ e. e.size) (effect-get_instance g)
canvas-on_image t onerror g = refl

pub buffers-on_image :
    {p : Platform} (t : Texture) (e : ImageEvent) (g : Gl p) → (on_image t e g).buffers ≡ g.buffers
unfolding on_image load_texture
buffers-on_image t onload g = ap (λ e. e.buffers) (effect-get_instance g)
buffers-on_image t onerror g = refl

pub images-on_image :
    {p : Platform} (t : Texture) (e : ImageEvent) (g : Gl p)
    → Path
        (ℕ → Option ℕ)
        (λ k. image_of k (on_image t e g).log)
        (loaded t e (λ k. image_of k g.log))
unfolding on_image load_texture
images-on_image {p} t onload g =
    ap (λ (e : Effect p). loaded t onload e.images) (effect-get_instance g)
images-on_image {p} t onerror g = refl
