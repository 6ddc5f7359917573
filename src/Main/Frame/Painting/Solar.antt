-- ===== src/Main/Frame/Painting/Solar.antt =====
-- The draw calls of a frame of Computergrafik/src/szenegraph/index.ts, as a walk makes them.
use fhmuenster.Base.{arith, ℕ, ◌+◌, ◌≡◌, refl, Option, List, [], ◌∷◌, ◌++◌, replicate}
use fhmuenster.Platform.{Platform}
use fhmuenster.WebGl.Paint.{Paint, Effect, Shine, shine_of, paint}
use fhmuenster.Material.{Material}
use fhmuenster.Scenegraph.Painting.Walk.{walk}
use fhmuenster.Light.{Light, update_position}
use fhmuenster.Camera.{Camera}
use fhmuenster.Scenegraph.Painting.{shot}
use fhmuenster.Main.Setup.{sun_material, mars_material, earth_material, moon_material, silver}
use fhmuenster.Main.Setup.Courses
use fhmuenster.Main.Setup.Courses.{Course, place_of}
use fhmuenster.Main.Setup.Painting.{solar_sights}
use fhmuenster.Main.Frame.{fuel}

module _ {p : Platform} where
  -- The paints of a frame, latest first: each body once, but the moon, a cube, twice for each of
  -- its six squares. The texture `n + i` is that of the `i`-th body that the script creates. The sun
  -- is drawn before the light, and so in the light from before the frame, `before`. The orbits and
  -- planets stand where the earlier frames, which drew for `days`, left them.
  abbrev pub solar_paints :
      (n : ℕ) (before : Shine p) (lamp : Light p) (projection : Option p.Mat4)
      (images : ℕ → Option ℕ) (days : List p.R)
      → List (Paint p)
  solar_paints n before lamp projection images days =
      let round = λ (m : Material p) (i : ℕ) (c : Course p).
        paint m (n + i) (images (n + i)) (shine_of lamp) projection
          (place_of (Courses.sun p ∷ []) c days) in
      let cube =
        paint (moon_material p) (n + 3) (images (n + 3)) (shine_of lamp) projection
          (place_of (Courses.sun p ∷ Courses.earth p ∷ []) (Courses.moon p) days) in
      round (moon_material p) 7 (Courses.jupiter p)
      ∷ round (moon_material p) 6 (Courses.saturn p)
      ∷ round (silver p) 9 (Courses.mercury p)
      ∷ round (moon_material p) 8 (Courses.venus p)
      ∷ round (moon_material p) 5 (Courses.uranus p)
      ∷ round (moon_material p) 4 (Courses.neptune p)
      ∷ round (mars_material p) 2 (Courses.mars p)
      ∷ (replicate 12 cube
          ++ (round (earth_material p) 1 (Courses.earth p)
              ∷ paint (sun_material p) (n + 0) (images (n + 0)) before projection
                  (place_of [] (Courses.sun p) days)
              ∷ []))

  -- A walk from the camera, over the days `d`.
  pub walk-solar_sights :
      (n : ℕ) (eye : Camera p) (lamp : Light p) (days : List p.R) (d : p.R) (e : Effect p)
      → let (sees, e') = walk d fuel p.create 6 (solar_sights p (λ i. n + i) eye lamp days, e) in
        let eye' = shot e.size eye in
        let lamp' = update_position (p.multiply (place_of [] (Courses.sun p) days) p.create) lamp in
        (sees ≡ solar_sights p (λ i. n + i) eye' lamp' (d ∷ days))
        × (e'.drawn ≡ solar_paints n e.now.light lamp' eye'.projection e.images days ++ e.drawn)
        × (e'.size ≡ e.size)
        × (e'.buffers ≡ e.buffers + 12)
        × (e'.images ≡ e.images)
  walk-solar_sights n eye lamp days d e = (refl, refl, refl, omega arith, refl)
