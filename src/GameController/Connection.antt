-- ===== src/GameController/Connection.antt =====
-- Which gamepad `class GameController` follows, after any sequence of browser events.
use mathlib.Core.Path.{subst, sym}
use fhmuenster.Base.{
  ℕ, ◌≡◌, refl, ap, inl, inr, Bool, true, false, Option, none, some, List, [], ◌∷◌, arith, ◌==◌,
  if◌then◌else◌, Bool-cases,
}
use fhmuenster.Platform.{Platform}
use fhmuenster.Camera.{Camera}
use fhmuenster.GameController.{
  GameController, Reading, new_game_controller, connect_handler, disconnect_handler, disconnect_at,
  is_connected, update_status, update_at, button_actions, axes_action,
}

-- A gamepad's index, and for a connection the gamepads that are present then.
pub data GamepadEvent : Type 0 where
  connected : (present : ℕ → Bool) → ℕ → GamepadEvent
  disconnected : ℕ → GamepadEvent

-- An exception in a listener leaves the object as it is.
abbrev or_unchanged : GameController → Option GameController → GameController
or_unchanged gp none = gp
or_unchanged gp (some gp') = gp'

unfoldable pub on_event : GamepadEvent → GameController → GameController
unfolding connect_handler disconnect_handler
on_event (connected present i) gp = connect_handler present i gp
on_event (disconnected i) gp = or_unchanged gp (disconnect_handler i gp)

unfoldable pub on_events : List GamepadEvent → GameController → GameController
unfolding on_event
on_events [] gp = gp
on_events (e ∷ es) gp = on_events es (on_event e gp)

-- A gamepad that announces itself is among those that are present.
abbrev pub IsPresent : GamepadEvent → Type 0
IsPresent (connected present i) = present i ≡ true
IsPresent (disconnected i) = Unit

abbrev pub AllPresent : List GamepadEvent → Type 0
AllPresent [] = Unit
AllPresent (e ∷ es) = IsPresent e × AllPresent es

-- The gamepad in use: the last one that was connected, unless it has been disconnected since.
abbrev pub in_use : Option ℕ → List GamepadEvent → Option ℕ
in_use current [] = current
in_use current (connected present i ∷ es) = in_use (some i) es
in_use none (disconnected i ∷ es) = in_use none es
in_use (some j) (disconnected i ∷ es) = in_use (if j == i then none else some j) es

-- What the object says about it.
abbrev pub Follows : GameController → Option ℕ → Type 0
Follows gp none = is_connected gp ≡ false
Follows gp (some j) = (is_connected gp ≡ true) × (gp.controller ≡ some j)

on_event-disconnected :
    (i : ℕ) (o : Option ℕ) (gp : GameController)
    → gp.controller ≡ o
    → on_event (disconnected i) gp ≡ or_unchanged gp (disconnect_at o i gp)
unfolding on_event disconnect_handler
on_event-disconnected i o gp h = ap (λ t. or_unchanged gp (disconnect_at t i gp)) h

on_event-none :
    (i : ℕ) (o : Option ℕ) (gp : GameController)
    → is_connected gp ≡ false
    → is_connected (or_unchanged gp (disconnect_at o i gp)) ≡ false
unfolding is_connected disconnect_at
on_event-none i none gp h = h
on_event-none i (some j) gp h = ground arith

on_event-some :
    (i j : ℕ) (gp : GameController)
    → Follows gp (some j)
    → Follows (or_unchanged gp (disconnect_at (some j) i gp)) (if j == i then none else some j)
unfolding disconnect_at
on_event-some i j gp f = elim (Bool-cases (j == i)) [
  | inl same ↦ rw same (unfold is_connected in refl)
  | inr apart ↦ rw apart f
]

pub on_event-Follows :
    (e : GamepadEvent) (current : Option ℕ) (gp : GameController)
    → IsPresent e
    → Follows gp current
    → Follows (on_event e gp) (in_use current (e ∷ []))
on_event-Follows (connected present i) current gp h f =
    unfold on_event connect_handler is_connected in (refl, ground arith)
on_event-Follows (disconnected i) none gp h f =
    unfold on_event disconnect_handler in on_event-none i gp.controller gp f
on_event-Follows (disconnected i) (some j) gp h f =
    subst (λ g. Follows g (if j == i then none else some j))
      (sym (on_event-disconnected i (some j) gp f.1)) (on_event-some i j gp f)

on_events-Follows :
    (es : List GamepadEvent) (current : Option ℕ) (gp : GameController)
    → AllPresent es
    → Follows gp current
    → Follows (on_events es gp) (in_use current es)
unfolding on_events
on_events-Follows [] current gp h f = f
on_events-Follows (connected present i ∷ es) current gp h f =
    on_events-Follows es (some i) (on_event (connected present i) gp) h.1
      (on_event-Follows (connected present i) current gp h.0 f)
on_events-Follows (disconnected i ∷ es) none gp h f =
    on_events-Follows es none (on_event (disconnected i) gp) h.1
      (on_event-Follows (disconnected i) none gp h.0 f)
on_events-Follows (disconnected i ∷ es) (some j) gp h f =
    on_events-Follows es (if j == i then none else some j) (on_event (disconnected i) gp) h.1
      (on_event-Follows (disconnected i) (some j) gp h.0 f)

-- Whatever gamepads are there at the start, if every gamepad is present when it announces itself,
-- then after any events the object is connected exactly if some gamepad is in use (connected last
-- and not disconnected since), and its controller is that one.
pub new_game_controller-Follows :
    (present : ℕ → Bool) (es : List GamepadEvent)
    → AllPresent es
    → Follows (on_events es (new_game_controller present)) (in_use none es)
new_game_controller-Follows present es h =
    on_events-Follows es none (new_game_controller present) h
      (unfold is_connected new_game_controller in refl)

-- The camera after the buttons and axes of the gamepad in use.
abbrev pub moved_by : {p : Platform} → Option ℕ → (ℕ → Reading p.R) → Camera p → Camera p
moved_by none read c = c
moved_by (some i) read c = axes_action (read i).axes (button_actions (read i).buttons 0 c)

pub update_status-Follows :
    {p : Platform} (o : Option ℕ) (gp : GameController) (read : ℕ → Reading p.R) (c : Camera p)
    → Follows gp o
    → update_status gp read c ≡ some (moved_by o read c)
unfolding update_status
update_status-Follows none gp read c f = rw f
update_status-Follows (some i) gp read c (f, e) = rw (f, e) (unfold update_at in refl)

-- If every gamepad is present when it announces itself, then after any events `updateStatus` does
-- not throw, and moves the camera by the readings of the gamepad in use (connected last and not
-- disconnected since) alone, or not at all if none is.
pub update_status-in_use :
    {p : Platform} (present : ℕ → Bool) (es : List GamepadEvent) (read : ℕ → Reading p.R)
    (c : Camera p)
    → AllPresent es
    → update_status (on_events es (new_game_controller present)) read c
      ≡ some (moved_by (in_use none es) read c)
update_status-in_use present es read c h =
    update_status-Follows (in_use none es) (on_events es (new_game_controller present)) read c
      (new_game_controller-Follows present es h)
