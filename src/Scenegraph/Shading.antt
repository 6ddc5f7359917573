-- ===== src/Scenegraph/Shading.antt =====
-- What the shader's uniforms hold when lights and materials have been drawn by a traversal.
use fhmuenster.Base.{ℕ, ◌≡◌, refl, ap, Bool, true, false, some, List, if◌then◌else◌}
use fhmuenster.Platform.{Platform, Vec4}
use fhmuenster.WebGl.{
  Gl, ◌▷◌, uniform_matrix4, uniform_matrix3, model_view_matrix, normal_matrix, light_position,
  light_ambient, light_diffuse, light_specular, material_emission, material_ambient,
  material_diffuse, material_specular, material_shininess,
}
use fhmuenster.WebGl.Bindings.{uniform4_value, uniform1f_value}
use fhmuenster.SgNode.{Node, Scene, light, material, draw_kind, update_light}
use fhmuenster.Light
use fhmuenster.Light.{Light, new_light, with_w, update_position}
use fhmuenster.Material
use fhmuenster.Material.{Material}
use fhmuenster.Scenegraph.{ok, show, put_back}

-- The world position of a light: the image of its position; for a directional light that of the
-- position with 1 for its last component, with 0 put there afterwards.
abbrev pub world_position : (p : Platform) → p.Mat4 → Vec4 p.R → Vec4 p.R
world_position p world v =
    let copy = p.vec4 v.x v.y v.z v.w in
    if p.is_zero copy.w
    then with_w p (p.transform world (with_w p copy (p.of_ℕ 1))) (p.of_ℕ 0)
    else p.transform world copy

choose :
    {A : Type 0} (b : Bool) (f g : A → A) (x y : A)
    → (if b then g (f (if b then x else y)) else f (if b then x else y))
      ≡ (if b then g (f x) else f y)
choose true f g x y = refl
choose false f g x y = refl

module _ {p : Platform} where
  -- Where the world matrix is regular, the traversal's step at a light uploads the light's position
  -- in the world by the very matrix of that step, and the three colours of the constructor.
  pub show-light :
      (days : p.R) (world : p.Mat4) (normal : p.Mat3) (id : ℕ) (s : Scene p) (g : Gl p)
      (trafo : p.Mat4) (children : List ℕ) (v ambient diffuse specular : Vec4 p.R)
      → p.normal_from_mat4 world ≡ some normal
      → let l = (new_light v ambient diffuse specular g).0 in
        (n : Node p) × (s' : Scene p) × (show days world id
            (record { trafo = trafo; children = children; kind = light l })
            s
          ≡ ok (n, s'))
        × (uniform4_value light_position s'.gl.log ≡ some (world_position p world v))
        × (uniform4_value light_ambient s'.gl.log ≡ some ambient)
        × (uniform4_value light_diffuse s'.gl.log ≡ some diffuse)
        × (uniform4_value light_specular s'.gl.log ≡ some specular)
  unfolding show draw_kind update_light new_light update_position Light.draw
  show-light days world normal id s g trafo children v ambient diffuse specular e =
      let l = update_position world (new_light v ambient diffuse specular g).0 in
      let node : Node p = record {
        trafo = trafo;
        children = children;
        kind = light (new_light v ambient diffuse specular g).0;
      } in
      let g' =
        s.gl ▷ uniform_matrix4 model_view_matrix world ▷ uniform_matrix3 normal_matrix normal in
      let done = put_back id node s (light l, trafo, Light.draw l g') in
      (
        done.0,
        done.1,
        rw e refl,
        ap some (
            choose (p.is_zero (p.vec4 v.x v.y v.z v.w).w) (p.transform world)
              (λ u. with_w p u (p.of_ℕ 0)) (with_w p (p.vec4 v.x v.y v.z v.w) (p.of_ℕ 1))
              (p.vec4 v.x v.y v.z v.w)),
        refl,
        refl,
        refl,
      )

  -- Where the world matrix is regular, after the traversal's step at a material the five uniforms
  -- are those of this material, whichever material was drawn before.
  pub show-material :
      (days : p.R) (world : p.Mat4) (normal : p.Mat3) (id : ℕ) (s : Scene p) (trafo : p.Mat4)
      (children : List ℕ) (m : Material p)
      → p.normal_from_mat4 world ≡ some normal
      → (n : Node p) × (s' : Scene p) × (show days world id
            (record { trafo = trafo; children = children; kind = material m })
            s
          ≡ ok (n, s'))
        × (uniform4_value material_emission s'.gl.log ≡ some m.emission)
        × (uniform4_value material_ambient s'.gl.log ≡ some m.ambient)
        × (uniform4_value material_diffuse s'.gl.log ≡ some m.diffuse)
        × (uniform4_value material_specular s'.gl.log ≡ some m.specular)
        × (uniform1f_value material_shininess s'.gl.log ≡ some m.shininess)
  unfolding show draw_kind update_light Material.draw
  show-material days world normal id s trafo children m e =
      let node : Node p = record { trafo = trafo; children = children; kind = material m } in
      let g' =
        s.gl ▷ uniform_matrix4 model_view_matrix world ▷ uniform_matrix3 normal_matrix normal in
      let done = put_back id node s (material m, trafo, Material.draw m g') in
      (done.0, done.1, rw e refl, refl, refl, refl, refl, refl)
