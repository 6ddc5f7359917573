-- ===== src/Material.antt =====
-- Computergrafik/src/materiallights/material.ts: `class Material`.
use fhmuenster.Platform.{Platform, Vec4}
use fhmuenster.WebGl.{
  Gl, ◌▷◌, get_uniform_location, uniform4, uniform1f, material_emission, material_ambient,
  material_diffuse, material_specular, material_shininess,
}
use fhmuenster.WebGlStart.{get_instance}

pub record Material (p : Platform) : Type 0 where
  pub emission : Vec4 p.R
  pub ambient : Vec4 p.R
  pub diffuse : Vec4 p.R
  pub specular : Vec4 p.R
  pub shininess : p.R

module _ {p : Platform} where
  unfoldable pub new_material : Material p → Gl p → Material p × Gl p
  new_material m g = (
    m,
    get_instance g
        ▷ get_uniform_location material_emission
        ▷ get_uniform_location material_ambient
        ▷ get_uniform_location material_diffuse
        ▷ get_uniform_location material_specular
        ▷ get_uniform_location material_shininess,
  )

  unfoldable pub draw : Material p → Gl p → Gl p
  draw m g =
      get_instance g
      ▷ uniform4 material_emission m.emission
      ▷ uniform4 material_ambient m.ambient
      ▷ uniform4 material_diffuse m.diffuse
      ▷ uniform4 material_specular m.specular
      ▷ uniform1f material_shininess m.shininess
