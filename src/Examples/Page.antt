-- ===== src/Examples/Page.antt =====
-- The theorem on the sketch's keys.
use fhmuenster.Base.{ℕ, ◌+◌, ◌-◌, ◌*◌, ◌/◌, ◌≡◌, ◌⊎◌, [], ◌∷◌}
use fhmuenster.Sketch.{P5, background, fill, rect, Page, shade, setup, key_pressed}
use fhmuenster.Sketch.Keys.{IsLetter, key_pressed-setup}

-- Whole numbers, on which 25 steps of `map` are counted out.
abbrev whole : P5
whole = record {
  R = ℕ;
  of_ℕ = λ n. n;
  add = λ a b. a + b;
  sub = λ a b. a - b;
  mul = λ a b. a * b;
  div = λ a b. a / b;
  floor = λ a. a;
  map_range = λ a b c d e. a * e;
}

abbrev empty_page : Page whole
empty_page = record {
  width = 0;
  height = 0;
  rect_width = 0;
  fill_r = 0;
  fill_g = 0;
  fill_b = 0;
  log = [];
}

-- The key `c`.
key_pressed-setup_example :
    let page = setup empty_page in
    (¬ ((k : ℕ) × IsLetter (99 ∷ []) k)
      × ((key_pressed (99 ∷ []) 0 1 0 page).log ≡ background 230 ∷ page.log))
    ⊎ ((k : ℕ) × IsLetter (99 ∷ []) k
        × ((key_pressed (99 ∷ []) 0 1 0 page).log
            ≡ rect (k * 540) 0 180 400
              ∷ fill (shade whole 0) (shade whole 1) (shade whole 0)
              ∷ page.log))
key_pressed-setup_example = key_pressed-setup (99 ∷ []) 0 1 0 empty_page
