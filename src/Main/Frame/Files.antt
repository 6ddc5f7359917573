-- ===== src/Main/Frame/Files.antt =====
-- The image files that the textures of the solar system hold after a run of
-- Computergrafik/src/szenegraph/index.ts.
use mathlib.Core.Option.{some-injective}
use fhmuenster.Base.{
  ℕ, ◌+◌, ◌≡◌, refl, sym, ap, ◌∙◌, Bool, true, false, Option, none, some, List, [], ◌∷◌, arith,
  ◌==◌, if◌then◌else◌, get_elem?,
}
use fhmuenster.Platform.{Platform}
use fhmuenster.WebGl.{Gl}
use fhmuenster.WebGl.Bindings.{image_of}
use fhmuenster.WebGl.Paint.{canvas}
use fhmuenster.Texture.{Texture, onload, onerror}
use fhmuenster.Scenegraph.{ok}
use fhmuenster.Scenegraph.Motions.{Motions}
use fhmuenster.Main.Setup.Dress.{dressed, files, planets, wrapped, make_scene-dressed}
use fhmuenster.Main.Frame.{Program, Input, frame, key, gamepad, image, new_program}
use fhmuenster.Main.Frame.Pose.{Pose, first_pose, pose_of}
use fhmuenster.Main.Frame.Run.{run, AllSound}
use fhmuenster.Main.Frame.Painting.{new_program-shown}

-- A texture node of the script, where the script's first texture has the number `n`.
abbrev pub IsOwn : (n : ℕ) → Texture → Type 0
IsOwn n t =
    (j : ℕ) × (f : ℕ) × (get_elem? files j ≡ some f) × (t ≡ record { texture = n + j; image = f })

module _ {p : Platform} where
  -- The image events of a run are those of the script's texture nodes.
  abbrev pub AllOwn : (n : ℕ) → List (Input p) → Type 0
  AllOwn n [] = Unit
  AllOwn n (image t e ∷ is) = IsOwn n t × AllOwn n is
  AllOwn n (_ ∷ is) = AllOwn n is

  -- Whether an image is loaded into the texture `t`.
  abbrev pub loads : (t : ℕ) → List (Input p) → Bool
  loads t [] = false
  loads t (image x onload ∷ is) = if x.texture == t then true else loads t is
  loads t (_ ∷ is) = loads t is

own_image :
    (n k file : ℕ) (x : Texture)
    → IsOwn n x
    → get_elem? files k ≡ some file
    → (x.texture == (n + k)) ≡ true
    → x.image ≡ file
own_image n k file x (j, f, found, same) h e =
    let number : x.texture ≡ n + j = ap (λ (t : Texture). t.texture) same in
    let place : j ≡ k = ground arith in
    ap (λ (t : Texture). t.image) same
    ∙ some-injective _ _ (sym found ∙ ap (λ i. get_elem? files i) place ∙ h)

either :
    (b c : Bool) (x y : ℕ) (o : Option ℕ)
    → (b ≡ true → y ≡ x)
    → (if c then some x else (if b then some y else o))
      ≡ (if (if b then true else c) then some x else o)
either true true x y o h = refl
either true false x y o h = ap some (h refl)
either false c x y o h = refl

-- Once the file is there, a later event leaves it.
kept :
    {p : Platform} (size : p.R × p.R) (n k file : ℕ) (is : List (Input p)) (s : Pose p)
    → AllOwn n is
    → get_elem? files k ≡ some file
    → (pose_of size is s).images (n + k)
      ≡ (if loads (n + k) is then some file else s.images (n + k))
kept size n k file [] s own h = refl
kept size n k file (frame i ∷ is) s own h = kept size n k file is _ own h
kept size n k file (key e ∷ is) s own h = kept size n k file is _ own h
kept size n k file (gamepad e ∷ is) s own h = kept size n k file is _ own h
kept size n k file (image x onerror ∷ is) s own h = kept size n k file is _ own.1 h
kept size n k file (image x onload ∷ is) s own h =
    kept size n k file is _ own.1 h
    ∙ either (x.texture == (n + k)) (loads (n + k) is) file x.image (s.images (n + k))
        (own_image n k file x own.0 h)

-- In a set of motions that has no failure, over any animation frames, key, gamepad and image events
-- in any order, where the image events are those of the script's texture nodes: the script gives
-- each of its ten planets, in the order of their creation, one texture, the `k`-th of them with the
-- `k`-th of these files: sun, earth, mars, borg (for the moon), neptune, uranus, saturn, jupiter,
-- venus, mercury. After the run the `k`-th texture holds its file if an image event of the run loaded
-- it, and otherwise what stood under its number before the script. A gamepad has to be present when
-- it announces itself, and in each frame the four axes that are read of the gamepad in use have to
-- be numbers of the set.
pub new_program-files :
    {p : Platform} (L : Motions p) (now : ℕ) (present : ℕ → Bool) (g : Gl p) (is : List (Input p))
    (k file : ℕ)
    → ¬ L.Failure
    → AllSound L none is
    → AllOwn g.textures is
    → get_elem? files k ≡ some file
    → let (m, start) = new_program p now present g in
      let nodes = start.world.scene.nodes in
      let t = g.textures + k in
      (dressed nodes nodes ≡ wrapped p (λ i. g.textures + i) 0 (planets p) files)
      × (pr : Program p) × (run m.camera_id is start ≡ ok pr)
      × (image_of t pr.world.scene.gl.log ≡ (if loads t is then some file else image_of t g.log))
unfolding new_program
new_program-files {p} L now present g is k file n h own found =
    let (pr, ran, ready, shows) = new_program-shown L now present g is n h in
    (
      make_scene-dressed p g,
      pr,
      ran,
      ap (λ f. f (g.textures + k)) shows.images
          ∙ kept (canvas g) g.textures k file is (first_pose p now g) own found,
    )
