-- ===== src/Light.antt =====
-- Computergrafik/src/materiallights/light.ts: `class Light`.
use fhmuenster.Base.{Bool, if◌then◌else◌}
use fhmuenster.Platform.{Platform, Vec4}
use fhmuenster.WebGl.{
  Gl, ◌▷◌, get_uniform_location, uniform4, light_position, light_ambient, light_diffuse,
  light_specular,
}
use fhmuenster.WebGlStart.{get_instance}

pub record Light (p : Platform) : Type 0 where
  pub position : Vec4 p.R
  pub worldposition : Vec4 p.R
  pub ambient : Vec4 p.R
  pub diffuse : Vec4 p.R
  pub specular : Vec4 p.R
  pub is_directional_light : Bool

-- A vector with `v[3] = n`, stored in a `Float32Array`.
abbrev pub with_w : (p : Platform) → Vec4 p.R → p.R → Vec4 p.R
with_w p v n = record v { w = p.fround n }

module _ {p : Platform} where
  -- The constructor; `position` is a copy of the argument, with 1 for its last component if the
  -- light is directional, and `worldposition` a copy from before that.
  unfoldable pub new_light : (position ambient diffuse specular : Vec4 p.R) → Gl p → Light p × Gl p
  new_light position ambient diffuse specular g =
      let copy = p.vec4 position.x position.y position.z position.w in
      let directional = p.is_zero copy.w in
      (
        record {
          position = if directional then with_w p copy (p.of_ℕ 1) else copy;
          worldposition = copy;
          ambient = ambient;
          diffuse = diffuse;
          specular = specular;
          is_directional_light = directional;
        },
        get_instance g
            ▷ get_uniform_location light_position
            ▷ get_uniform_location light_ambient
            ▷ get_uniform_location light_diffuse
            ▷ get_uniform_location light_specular,
      )

  unfoldable pub update_position : p.Mat4 → Light p → Light p
  update_position mv l =
      let world = p.transform mv l.position in
      record l {
        worldposition = if l.is_directional_light then with_w p world (p.of_ℕ 0) else world;
      }

  unfoldable pub draw : Light p → Gl p → Gl p
  draw l g =
      get_instance g
      ▷ uniform4 light_position l.worldposition
      ▷ uniform4 light_ambient l.ambient
      ▷ uniform4 light_diffuse l.diffuse
      ▷ uniform4 light_specular l.specular
