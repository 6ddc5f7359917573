-- ===== src/Main/Setup/Materials.antt =====
-- The materials of Computergrafik/src/szenegraph/index.ts.
use fhmuenster.Platform.{Platform}
use fhmuenster.Material.{Material}

module _ (p : Platform) where
  open p use {R, of_ℕ, decimal, mul, vec4}

  pub sun_material : Material p
  sun_material = record {
    emission = vec4 (decimal 7 1) (decimal 7 1) (of_ℕ 0) (of_ℕ 1);
    ambient = vec4 (decimal 24_725 5) (decimal 2245 4) (decimal 645 4) (of_ℕ 1);
    diffuse = vec4 (decimal 75_164 5) (decimal 60_648 5) (decimal 22_648 5) (of_ℕ 1);
    specular = vec4 (decimal 628_281 6) (decimal 555_802 6) (decimal 366_065 6) (of_ℕ 1);
    shininess = decimal 832 1;
  }

  pub mars_material : Material p
  mars_material = record {
    emission = vec4 (of_ℕ 0) (of_ℕ 0) (of_ℕ 0) (of_ℕ 1);
    ambient = vec4 (decimal 1745 4) (decimal 1175 5) (decimal 1175 5) (of_ℕ 1);
    diffuse = vec4 (decimal 61_424 5) (decimal 4136 5) (decimal 4136 5) (of_ℕ 1);
    specular = vec4 (decimal 727_811 6) (decimal 626_959 6) (decimal 626_959 6) (of_ℕ 1);
    shininess = decimal 6 1;
  }

  pub earth_material : Material p
  earth_material = record {
    emission = vec4 (of_ℕ 0) (of_ℕ 0) (of_ℕ 0) (of_ℕ 1);
    ambient = vec4 (decimal 135 3) (decimal 2225 4) (decimal 1575 4) (of_ℕ 1);
    diffuse = vec4 (decimal 54 2) (decimal 89 2) (decimal 63 2) (of_ℕ 1);
    specular = vec4 (decimal 316_228 6) (decimal 316_228 6) (decimal 316_228 6) (of_ℕ 1);
    shininess = decimal 128 1;
  }

  pub moon_material : Material p
  moon_material = record {
    emission = vec4 (of_ℕ 0) (of_ℕ 0) (of_ℕ 0) (of_ℕ 1);
    ambient = vec4 (decimal 105_882 6) (decimal 58_824 6) (decimal 113_725 6) (of_ℕ 1);
    diffuse = vec4 (decimal 427_451 6) (decimal 470_588 6) (decimal 541_176 6) (of_ℕ 1);
    specular = vec4 (decimal 333_333 6) (decimal 333_333 6) (decimal 521_569 6) (of_ℕ 1);
    shininess = decimal 984_615 5;
  }

  pub silver : Material p
  silver = record {
    emission = vec4 (decimal 3 1) (decimal 3 1) (decimal 3 1) (of_ℕ 1);
    ambient = vec4 (decimal 19_225 5) (decimal 19_225 5) (decimal 19_225 5) (of_ℕ 1);
    diffuse = vec4 (decimal 50_754 5) (decimal 50_754 5) (decimal 50_754 5) (of_ℕ 1);
    specular = vec4 (decimal 508_273 6) (decimal 508_273 6) (decimal 508_273 6) (of_ℕ 1);
    shininess = mul (decimal 4 1) (of_ℕ 128);
  }
