-- ===== src/WebGl/Requests.antt =====
-- How many animation frames a log has asked for.
use fhmuenster.Base.{if_both, ℕ, suc, ◌≡◌, refl, Bool, true, false, if◌then◌else◌, List, [], ◌∷◌}
use fhmuenster.Platform.{Platform}
use fhmuenster.WebGl.{Gl, Call, ◌▷◌, alert, request_animation_frame}
use fhmuenster.WebGlStart.{
  get_instance, start, webgl_start_example, init_shaders, create_shaders, report_link,
}

module _ {p : Platform} where
  abbrev pub requests : List (Call p) → ℕ
  requests [] = 0
  requests (request_animation_frame ∷ cs) = suc (requests cs)
  requests (c ∷ cs) = requests cs

  abbrev pub requested : Gl p → ℕ
  requested g = requests g.log

  pub alert_quiet :
      (linked : Bool) (g : Gl p) → requested (if linked then g else g ▷ alert) ≡ requested g
  alert_quiet true g = refl
  alert_quiet false g = refl

  start_quiet : (g : Gl p) → requested (start g) ≡ requested g
  unfolding start webgl_start_example init_shaders create_shaders report_link
  start_quiet g = alert_quiet p.links _

  pub requested-get_instance : (g : Gl p) → requested (get_instance g) ≡ requested g
  unfolding get_instance
  requested-get_instance g =
      if_both (λ g'. requested g' ≡ requested g) g.started refl (start_quiet g)
