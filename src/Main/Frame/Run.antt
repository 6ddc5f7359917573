-- ===== src/Main/Frame/Run.antt =====
-- Runs of the whole program, over any sequence of the browser's inputs.
use mathlib.Core.Path.{subst}
use fhmuenster.Base.{ℕ, ◌≡◌, refl, sym, Bool, Option, none, some, List, [], ◌∷◌}
use fhmuenster.Platform.{Platform}
use fhmuenster.WebGl.{Gl}
use fhmuenster.Scenegraph.{Result, ok, throw, type_error, range_error, ◌>>=◌}
use fhmuenster.Scenegraph.Motions.{Motions, everything}
use fhmuenster.Main.Frame.{Program, Input, frame, key, gamepad, image, on_input, new_program}
use fhmuenster.Main.Frame.Ready.{
  IsReady, after, IsHonest, GoesOn, SoundInput, SoundReady, SoundResult, new_program-SoundReady,
}
use fhmuenster.Main.Frame.Step.{on_input-SoundResult}

module _ {p : Platform} where
  -- A run of the program over the browser's inputs, earliest first.
  unfoldable pub run : (camera_id : ℕ) → List (Input p) → Program p → Result (Program p)
  unfolding on_input
  run camera_id [] pr = ok pr
  run camera_id (i ∷ is) pr = on_input camera_id i pr >>= run camera_id is

  abbrev pub after_all : List (Input p) → Option ℕ → Option ℕ
  after_all [] current = current
  after_all (i ∷ is) current = after_all is (after i current)

  abbrev pub AllHonest : List (Input p) → Type 0
  AllHonest [] = Unit
  AllHonest (i ∷ is) = IsHonest i × AllHonest is

module _ {p : Platform} (L : Motions p) where
  -- The inputs of a run, each sound for the gamepad that is in use by then.
  abbrev pub AllSound : Option ℕ → List (Input p) → Type 0
  AllSound current [] = Unit
  AllSound current (i ∷ is) = SoundInput L current i × AllSound (after i current) is

  run-SoundResult :
      (is : List (Input p)) (current : Option ℕ) (pr : Program p)
      → AllSound current is
      → SoundReady L current pr
      → SoundResult L (after_all is current) (run 6 is pr)
  unfolding run
  run-SoundResult [] current pr h ready = ready
  run-SoundResult (i ∷ is) current pr (h, hs) ready =
      go (on_input 6 i pr) (on_input-SoundResult L i current pr h ready)
        (λ pr' ready'. run-SoundResult is (after i current) pr' hs ready')
    where
      go :
          (r : Result (Program p))
          → SoundResult L (after i current) r
          → ((pr' : Program p)
              → SoundReady L (after i current) pr'
              → SoundResult L (after_all is (after i current)) (run 6 is pr'))
          → SoundResult L (after_all is (after i current)) (r >>= run 6 is)
      go (ok pr') g next = next pr' g
      go (throw type_error) g next = g
      go (throw range_error) g next = g

  pub new_program-SoundResult :
      (now : ℕ) (present : ℕ → Bool) (g : Gl p) (is : List (Input p))
      → AllSound none is
      → let (m, pr) = new_program p now present g in
        SoundResult L (after_all is none) (run m.camera_id is pr)
  new_program-SoundResult now present g is h =
      let (ready, root) = new_program-SoundReady L now present g in
      subst (λ c. SoundResult L (after_all is none) (run c is (new_program p now present g).1))
        (sym root) (run-SoundResult is none (new_program p now present g).1 h ready)

  -- Where there is no failure, the program goes on.
  pub ok_of :
      (current : Option ℕ) (r : Result (Program p))
      → ¬ L.Failure
      → SoundResult L current r
      → (pr : Program p) × (r ≡ ok pr) × SoundReady L current pr
  ok_of current (ok pr) n h = (pr, refl, h)
  ok_of current (throw type_error) n h = absurd (n h)
  ok_of current (throw range_error) n h = absurd h

  -- In a set of motions that has no failure, from the script's end on, over any animation frames,
  -- key, gamepad and image events in any order, the program never throws, the graph keeps the edges
  -- of the solar system, the matrix stack is left with the one matrix that the constructor pushed,
  -- and the controller follows the gamepad in use. A gamepad has to be present when it announces
  -- itself, and in each frame the four axes that are read of the gamepad in use have to be numbers
  -- of the set.
  pub new_program_goes_on :
      (now : ℕ) (present : ℕ → Bool) (g : Gl p) (is : List (Input p))
      → ¬ L.Failure
      → AllSound none is
      → (pr : Program p) × (run
            (new_program p now present g).0.camera_id
            is
            (new_program p now present g).1
          ≡ ok pr)
        × IsReady (after_all is none) pr
  new_program_goes_on now present g is n h =
      let (pr, ran, ready) =
        ok_of (after_all is none) _ n (new_program-SoundResult now present g is h) in
      (pr, ran, ready.0)

module _ {p : Platform} where
  honest_sound :
      (is : List (Input p)) (current : Option ℕ) → AllHonest is → AllSound (everything p) current is
  honest_sound [] current h = tt
  honest_sound (i ∷ is) current (h, hs) = (here i current h, honest_sound is (after i current) hs)
    where
      here : (i : Input p) (current : Option ℕ) → IsHonest i → SoundInput (everything p) current i
      here (frame input) none h = tt
      here (frame input) (some i) h = (tt, tt, tt, tt)
      here (gamepad e) current h = h
      here (key e) current h = h
      here (image t e) current h = h

  forget_sound :
      (current : Option ℕ) (r : Result (Program p))
      → SoundResult (everything p) current r
      → GoesOn current r
  forget_sound current (ok pr) h = h.0
  forget_sound current (throw type_error) h = h
  forget_sound current (throw range_error) h = h

-- From the script's end on, over any animation frames, key, gamepad and image events in any order,
-- where a gamepad is present when it announces itself, the program does not run out of stack, and
-- throws no TypeError where no matrix is singular. If it throws none, the graph has the edges of
-- the solar system, the matrix stack holds the one matrix that the constructor pushed, and the
-- controller follows the gamepad in use.
pub new_program-run :
    (p : Platform) (now : ℕ) (present : ℕ → Bool) (g : Gl p) (is : List (Input p))
    → AllHonest is
    → let (m, pr) = new_program p now present g in
      GoesOn (after_all is none) (run m.camera_id is pr)
new_program-run p now present g is h =
    forget_sound (after_all is none) _
      (new_program-SoundResult (everything p) now present g is (honest_sound is none h))
