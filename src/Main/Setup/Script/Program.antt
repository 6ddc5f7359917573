-- ===== src/Main/Setup/Script/Program.antt =====
-- The whole script keeps a property that its statements keep.
use fhmuenster.Base.{ℕ, arith}
use fhmuenster.Platform.{Platform}
use fhmuenster.Camera.{new_camera}
use fhmuenster.SgNode.{Scene, camera}
use fhmuenster.Scenegraph.Motions.{Motions, SoundKind}
use fhmuenster.Main.Setup.{
  Build, Palette, Bodies, make_palette, make_planet, make_orbit, make_material, make_sphere,
  make_cube, make_body, make_bodies, join_nodes, make_scene,
}
use fhmuenster.Main.Setup.Script.{
  Keeps, KeepsNodes, ◌also◌, ◌then◌, pure-Keeps, set_material-Keeps, make_planet-Keeps,
  make_orbit-Keeps,
}

module _ {p : Platform} {L : Motions p} {P : Scene p → Type 0} (K : KeepsNodes P L) where
  new_camera-SoundKind : SoundKind L (camera (new_camera p))
  unfolding new_camera
  new_camera-SoundKind =
      let n = L.of_ℕ_number 0 in
      (
        L.translate_motion _ _ _ _ L.create_motion n n (L.of_ℕ_number 100),
        record { x_number = n; y_number = n; z_number = n; px_number = n; pz_number = n },
      )

  make_palette-Keeps : Keeps P (make_palette p)
  unfolding make_palette make_material
  make_palette-Keeps = K.lights _ _ _ _ then λ l. K.materials _ then λ sun.
      K.materials _ then λ mars. K.materials _ then λ earth. K.materials _ then λ moon.
      K.materials _ then λ silver.
      K.moving _ _ tt L.create_motion new_camera-SoundKind then λ c. pure-Keeps P _

  make_body-Keeps :
      (planet' body' orbit' : Build p ℕ)
      → Keeps P planet'
      → Keeps P body'
      → Keeps P orbit'
      → Keeps P (make_body p planet' body' orbit')
  unfolding make_body
  make_body-Keeps planet' body' orbit' h k l = h then λ a. k then λ b. l then λ o. pure-Keeps P _

  -- A body on numbers of the set.
  body-Keeps :
      (mesh : Build p ℕ) (mat tex : ℕ) {tilt period radius orbit_tilt orbit_period : p.R}
      → Keeps P mesh
      → L.IsNumber tilt
      → L.IsNumber period
      → L.IsNonZero period
      → L.IsNumber radius
      → L.IsNumber orbit_tilt
      → L.IsNumber orbit_period
      → Keeps P (
          make_body p
            (make_planet tilt period mat tex)
            mesh
            (make_orbit radius orbit_tilt orbit_period))
  body-Keeps mesh mat tex h a b c d e f =
      make_body-Keeps _ mesh _ (make_planet-Keeps K _ _ mat tex a b c) h
        (make_orbit-Keeps K _ _ _ d e f)

  make_bodies-Keeps : (m : Palette) → Keeps P (make_bodies p m)
  unfolding make_bodies make_sphere make_cube
  make_bodies-Keeps m =
      body-Keeps _ _ _ (K.spheres _) (L.decimal_number 725 2) (L.decimal_number 2538 2)
        (L.decimal_non_zero 2538 2 (omega arith)) (L.of_ℕ_number 0) (L.of_ℕ_number 0)
        (L.of_ℕ_number 0)
      then λ sun.
          body-Keeps _ _ _ (K.spheres _) (L.decimal_number 2345 2) (L.of_ℕ_number 1)
            (L.of_ℕ_non_zero 1 (omega arith)) (L.of_ℕ_number 80) (L.of_ℕ_number 0)
            (L.of_ℕ_number 365)
          then λ earth.
              body-Keeps _ _ _ (K.spheres _) (L.decimal_number 2519 2) (L.decimal_number 103 2)
                (L.decimal_non_zero 103 2 (omega arith)) (L.of_ℕ_number 105) (L.of_ℕ_number 19)
                (L.of_ℕ_number 678)
              then λ mars.
                  body-Keeps _ _ _ (K.cubes _ _ _) (L.decimal_number 154 2)
                    (L.decimal_number 2732 2) (L.decimal_non_zero 2732 2 (omega arith))
                    (L.of_ℕ_number 6) (L.decimal_number 5145 3) (L.decimal_number 2732 2)
                  then λ moon.
                      body-Keeps _ _ _ (K.spheres _) (L.decimal_number 2958 2)
                        (L.decimal_number 80 2) (L.decimal_non_zero 80 2 (omega arith))
                        (L.of_ℕ_number 450) (L.decimal_number 177 2) (L.of_ℕ_number 60_152)
                      then λ neptune.
                          body-Keeps _ _ _ (K.spheres _) (L.decimal_number 9786 2)
                            (L.decimal_number 75 2) (L.decimal_non_zero 75 2 (omega arith))
                            (L.of_ℕ_number 280) (L.decimal_number 77 2) (L.of_ℕ_number 30_664)
                          then λ uranus.
                              body-Keeps _ _ _ (K.spheres _) (L.decimal_number 2673 2)
                                (L.decimal_number 43 2) (L.decimal_non_zero 43 2 (omega arith))
                                (L.of_ℕ_number 210) (L.decimal_number 248 2) (L.of_ℕ_number 10_753)
                              then λ saturn.
                                  body-Keeps _ _ _ (K.spheres _) (L.decimal_number 312 2)
                                    (L.decimal_number 41 2) (L.decimal_non_zero 41 2 (omega arith))
                                    (L.of_ℕ_number 130) (L.decimal_number 104 2)
                                    (L.of_ℕ_number 4329)
                                  then λ jupiter.
                                      body-Keeps _ _ _ (K.spheres _) (L.decimal_number 17_736 2)
                                        (L.of_ℕ_number 243) (L.of_ℕ_non_zero 243 (omega arith))
                                        (L.of_ℕ_number 60) (L.decimal_number 340 2)
                                        (L.of_ℕ_number 226)
                                      then λ venus.
                                          body-Keeps _ _ _ (K.spheres _) (L.of_ℕ_number 0)
                                            (L.decimal_number 5865 2)
                                            (L.decimal_non_zero 5865 2 (omega arith))
                                            (L.of_ℕ_number 40) (L.decimal_number 700 2)
                                            (L.of_ℕ_number 88)
                                          then λ mercury. pure-Keeps P _

  join_nodes-Keeps : (m : Palette) (b : Bodies) → Keeps P (join_nodes p m b)
  unfolding join_nodes
  join_nodes-Keeps m b =
      set_material-Keeps K _ _
      also set_material-Keeps K _ _
      also set_material-Keeps K _ _
      also set_material-Keeps K _ _
      also K.edges _ _
      also K.edges _ _
      also K.edges _ _
      also K.edges _ _
      also K.edges _ _
      also K.edges _ _
      also K.edges _ _
      also K.edges _ _
      also K.edges _ _
      also K.edges _ _
      also K.edges _ _
      also K.edges _ _
      also K.edges _ _
      also K.edges _ _
      also K.edges _ _
      also K.edges _ _
      also K.edges _ _
      also K.edges _ _
      also K.edges _ _
      also K.edges _ _
      also K.edges _ _
      also K.edges _ _
      also K.edges _ _
      also K.edges _ _
      also K.edges _ _
      also K.edges _ _
      also K.edges _ _
      also K.edges _ _
      also K.edges _ _
      also K.edges _ _
      also K.edges _ _

  pub make_scene-Keeps : Keeps P (make_scene p)
  unfolding make_scene
  make_scene-Keeps = make_palette-Keeps then λ m.
      make_bodies-Keeps m then λ b. join_nodes-Keeps m b also pure-Keeps P m
