-- ===== src/Sketch.antt =====
-- Projekt_Systementwicklung/cmake-build-debug/docroot/extern/sketch.js: a page that fills a
-- rectangle for each letter key. What it takes from the library p5 is a parameter, and its calls
-- are a log, latest first. A string is the list of its UTF-16 code units.
pub mod Keys
use fhmuenster.Base.{
  ℕ, ◌+◌, ◌-◌, Bool, true, false, ◌&&◌, Option, none, some, List, [], ◌∷◌, ltb, ◌==◌, if◌then◌else◌,
}

-- Numbers, `Math.floor` and the function `map` of p5.
pub record P5 : Type 1 where
  pub R : Type 0
  pub of_ℕ : ℕ → R
  pub add : R → R → R
  pub sub : R → R → R
  pub mul : R → R → R
  pub div : R → R → R
  pub floor : R → R
  pub map_range : R → R → R → R → R → R

pub data Call (p : P5) : Type 0 where
  create_canvas : ℕ → ℕ → Call p
  no_stroke : Call p
  background : ℕ → Call p
  fill : p.R → p.R → p.R → Call p
  rect : p.R → p.R → p.R → p.R → Call p

-- The size of the canvas (`width`, `height`), the variables of the script, and the calls.
pub record Page (p : P5) : Type 0 where
  pub width : p.R
  pub height : p.R
  pub rect_width : p.R
  pub fill_r : p.R
  pub fill_g : p.R
  pub fill_b : p.R
  pub log : List (Call p)

-- `key >= 'a'` and `key <= 'z'`: the order of strings, code unit by code unit.
unfoldable pub from_a : List ℕ → Bool
from_a [] = false
from_a (c ∷ cs) = if ltb c 97 then false else true

unfoldable pub to_z : List ℕ → Bool
to_z [] = true
to_z (c ∷ []) = if ltb 122 c then false else true
to_z (c ∷ d ∷ cs) = ltb c 122

-- `key.charCodeAt(0) - 'a'.charCodeAt(0)` of a string that is not empty.
abbrev pub offset : List ℕ → Option ℕ
offset [] = none
offset (c ∷ cs) = some (c - 97)

-- `keyIndex`, where `none` is -1.
unfoldable pub key_index : List ℕ → Option ℕ
unfolding from_a to_z
key_index key = if from_a key && to_z key then offset key else none

-- `Math.floor(Math.random() * 255 + 1)`.
abbrev pub shade : (p : P5) → p.R → p.R
shade p random = p.floor (p.add (p.mul random (p.of_ℕ 255)) (p.of_ℕ 1))

module _ {p : P5} where
  open p use {R, of_ℕ, add, sub, mul, div, floor}

  -- `createCanvas` sets the canvas's sides.
  unfoldable pub setup : Page p → Page p
  setup s = record s {
    width = of_ℕ 720;
    height = of_ℕ 400;
    rect_width = div (of_ℕ 720) (of_ℕ 4);
    log = background 230 ∷ no_stroke ∷ create_canvas 720 400 ∷ s.log;
  }

  abbrev pub fill_rect : (r1 r2 r3 : R) → ℕ → Page p → Page p
  fill_rect r1 r2 r3 k s =
      let x = p.map_range (of_ℕ k) (of_ℕ 0) (of_ℕ 25) (of_ℕ 0) (sub s.width s.rect_width) in
      record s {
        fill_r = shade p r1;
        fill_g = shade p r2;
        fill_b = shade p r3;
        log =
            rect x (of_ℕ 0) s.rect_width s.height
            ∷ fill (shade p r1) (shade p r2) (shade p r3)
            ∷ s.log;
      }

  abbrev pub press_at : Option ℕ → (r1 r2 r3 : R) → Page p → Page p
  press_at none r1 r2 r3 s = record s { log = background 230 ∷ s.log }
  press_at (some k) r1 r2 r3 s = fill_rect r1 r2 r3 k s

  -- `keyPressed`, with the three answers of `Math.random`.
  unfoldable pub key_pressed : List ℕ → (r1 r2 r3 : R) → Page p → Page p
  key_pressed key = press_at (key_index key)
