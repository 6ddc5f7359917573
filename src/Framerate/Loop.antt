-- ===== src/Framerate/Loop.antt =====
-- The frame loop of `class Framerate`.
use fhmuenster.Base.{
  ℕ, zero, suc, ◌≡◌, refl, ◌∙◌, ap, true, List, [], ◌∷◌, ◌++◌, arith, if◌then◌else◌,
}
use fhmuenster.Platform.{Platform}
use fhmuenster.Framerate.{Framerate, start, get_instance, animation_frame, run_pending}

pub data Event (R : Type 0) : Type 0 where
  ask : Event R
  frame : R → Event R

-- `n` calls of `getInstance`.
abbrev pub asks : {R : Type 0} → ℕ → List (Event R)
asks zero = []
asks (suc n) = ask ∷ asks n

module _ {p : Platform} where
  unfoldable pub on_event : Event p.R → Framerate p → Framerate p
  unfolding get_instance animation_frame
  on_event ask f = get_instance f
  on_event (frame time) f = animation_frame time f

  unfoldable pub on_events : List (Event p.R) → Framerate p → Framerate p
  unfolding on_event
  on_events [] f = f
  on_events (e ∷ es) f = on_events es (on_event e f)

  -- Nothing is requested before the singleton exists, and one frame afterwards.
  abbrev pub IsLooping : Framerate p → Type 0
  IsLooping f = f.pending ≡ (if f.instance' then 1 else 0)

  on_event-IsLooping : (e : Event p.R) (f : Framerate p) → IsLooping f → IsLooping (on_event e f)
  unfolding on_event get_instance start animation_frame run_pending
  on_event-IsLooping ask f h = ground arith
  on_event-IsLooping (frame time) f h = ground arith

  -- In any order of calls of `getInstance` and animation frames, at most one callback is requested
  -- at a time: none before the first call and one from then on, so the calls start one loop.
  pub on_events-IsLooping :
      (es : List (Event p.R)) (f : Framerate p) → IsLooping f → IsLooping (on_events es f)
  unfolding on_events
  on_events-IsLooping [] f h = h
  on_events-IsLooping (e ∷ es) f h =
      on_events-IsLooping es (on_event e f) (on_event-IsLooping e f h)

  ask_idle : (f : Framerate p) → f.instance' ≡ true → on_event ask f ≡ f
  unfolding on_event get_instance
  ask_idle f h = ground arith

  asks_lem :
      (n : ℕ) (es : List (Event p.R)) (f : Framerate p)
      → f.instance' ≡ true
      → on_events (asks n ++ es) f ≡ on_events es f
  unfolding on_events on_event get_instance
  asks_lem zero es f h = refl
  asks_lem (suc n) es f h = ap (on_events (asks n ++ es)) (ask_idle f h) ∙ asks_lem n es f h

  -- Once the loop runs, two frames at `t` and `u` in succession, with any calls of `getInstance`
  -- between them, leave `ftime` at (u - t) / 1000, the seconds between them, and `u` as the time
  -- of the last frame.
  pub on_events-ftime :
      (n : ℕ) (t u : p.R) (f : Framerate p)
      → IsLooping f
      → f.instance' ≡ true
      → let f' = on_events (frame t ∷ (asks n ++ (frame u ∷ []))) f in
        (f'.ftime ≡ p.div (p.sub u t) (p.of_ℕ 1000)) × (f'.last_frame_time ≡ u)
  unfolding on_events on_event animation_frame run_pending start
  on_events-ftime n t u f h e =
      let one : f.pending ≡ 1 = ground arith in
      let g = start t (record f { pending = 0 }) in
      let first : on_event (frame t) f ≡ g = ap (λ k. run_pending t k f) one in
      let rest : on_events (asks n ++ (frame u ∷ [])) (on_event (frame t) f) ≡ animation_frame u g =
        ap (on_events (asks n ++ (frame u ∷ []))) first ∙ asks_lem n (frame u ∷ []) g e in
      (ap (λ (s : Framerate p). s.ftime) rest, ap (λ (s : Framerate p). s.last_frame_time) rest)
