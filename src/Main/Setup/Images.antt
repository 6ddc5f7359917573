-- ===== src/Main/Setup/Images.antt =====
-- The images that Computergrafik/src/szenegraph/index.ts imports. An image stands for its file, and
-- is named by the number of its `import`.
use fhmuenster.Base.{ℕ}

abbrev pub sun_tex : ℕ
sun_tex = 0

abbrev pub earth_tex : ℕ
earth_tex = 1

abbrev pub mars_tex : ℕ
mars_tex = 2

abbrev pub jupiter_tex : ℕ
jupiter_tex = 3

abbrev pub mercury_tex : ℕ
mercury_tex = 4

abbrev pub neptune_tex : ℕ
neptune_tex = 5

abbrev pub saturn_tex : ℕ
saturn_tex = 6

abbrev pub uranus_tex : ℕ
uranus_tex = 7

abbrev pub venus_tex : ℕ
venus_tex = 8

abbrev pub borg : ℕ
borg = 9
