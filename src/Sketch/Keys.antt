-- ===== src/Sketch/Keys.antt =====
-- Which keys draw, and where.
use fhmuenster.Base.{
  ℕ, ◌+◌, ◌-◌, ◌<◌, ◌≡◌, refl, ap, ◌⊎◌, inl, inr, false, true, none, some, List, [], ◌∷◌, ltb,
  arith, Bool-cases,
}
use fhmuenster.Sketch.{
  P5, background, fill, rect, Page, from_a, to_z, key_index, shade, setup, key_pressed,
}

-- The result of `key_index`: none, or the place in the alphabet of the letter that comes first, and
-- `z` only by itself.
abbrev pub IsLetter : List ℕ → ℕ → Type 0
IsLetter key k = (cs : List ℕ) × (key ≡ (97 + k) ∷ cs) × (k < 25 ⊎ ((k ≡ 25) × (cs ≡ [])))

one-IsLetter : (c : ℕ) → ltb c 97 ≡ false → ltb 122 c ≡ false → IsLetter (c ∷ []) (c - 97)
one-IsLetter c a z = elim (Bool-cases (ltb c 122)) [
  | inl below ↦ ([], from_97, inl (ground arith))
  | inr top ↦ ([], from_97, inr (ground arith, refl))
]
  where
    from_97 : c ∷ [] ≡ (97 + (c - 97)) ∷ []
    from_97 = ground arith

-- A key that begins before `a`, or after `z`, or with a `z` that has a code unit behind it.
below_a : (c : ℕ) (cs : List ℕ) → ltb c 97 ≡ true → ¬ ((k : ℕ) × IsLetter (c ∷ cs) k)
below_a c cs low (k, (ds, same, place)) = let first : c ≡ 97 + k = cc in ground arith

above_z : (c : ℕ) → ltb 122 c ≡ true → ¬ ((k : ℕ) × IsLetter (c ∷ []) k)
above_z c high (k, (ds, same, place)) = let first : c ≡ 97 + k = cc in ground arith

longer_z : (c d : ℕ) (cs : List ℕ) → ltb c 122 ≡ false → ¬ ((k : ℕ) × IsLetter (c ∷ d ∷ cs) k)
longer_z c d cs high (k, (ds, same, inl low)) = let first : c ≡ 97 + k = cc in ground arith
longer_z c d cs high (k, (ds, same, inr (z, alone))) = cc

nothing : ¬ ((k : ℕ) × IsLetter [] k)
nothing (k, (ds, same, place)) = cc

key_index_cases :
    (key : List ℕ)
    → ((key_index key ≡ none) × ¬ ((k : ℕ) × IsLetter key k))
      ⊎ ((k : ℕ) × (key_index key ≡ some k) × IsLetter key k)
unfolding key_index from_a to_z
key_index_cases [] = inl (refl, nothing)
key_index_cases (c ∷ []) = elim (Bool-cases (ltb c 97)) [
  | inl low ↦ inl (rw low refl, below_a c [] low)
  | inr a ↦ elim (Bool-cases (ltb 122 c)) [
    | inl high ↦ inl (rw (a, high) refl, above_z c high)
    | inr z ↦ inr (c - 97, rw (a, z) refl, one-IsLetter c a z)
  ]
]
key_index_cases (c ∷ d ∷ cs) = elim (Bool-cases (ltb c 97)) [
  | inl low ↦ inl (rw low refl, below_a c (d ∷ cs) low)
  | inr a ↦ elim (Bool-cases (ltb c 122)) [
    | inl z ↦
        inr (
          c - 97,
          rw (a, z) refl,
          (d ∷ cs, ap (λ t. t ∷ d ∷ cs) (ground arith), inl (ground arith)),
        )
    | inr high ↦ inl (rw (a, high) refl, longer_z c d cs high)
  ]
]

module _ {p : P5} where
  open p use {R, of_ℕ, sub}

  -- A key that begins with one of the letters `a` to `z`, where `z` stands alone, fills one
  -- rectangle, a quarter of the canvas wide after `setup`, at the place on the width to which p5
  -- maps the letter's place from 0 to 25; every other key clears the page and fills nothing.
  pub key_pressed-setup :
      (key : List ℕ) (r1 r2 r3 : R) (s : Page p)
      → let page = setup s in
        (¬ ((k : ℕ) × IsLetter key k)
          × ((key_pressed key r1 r2 r3 page).log ≡ background 230 ∷ page.log))
        ⊎ ((k : ℕ) × IsLetter key k
            × ((key_pressed key r1 r2 r3 page).log
                ≡ rect
                    (p.map_range
                      (of_ℕ k)
                      (of_ℕ 0)
                      (of_ℕ 25)
                      (of_ℕ 0)
                      (sub (of_ℕ 720) (p.div (of_ℕ 720) (of_ℕ 4))))
                    (of_ℕ 0)
                    (p.div (of_ℕ 720) (of_ℕ 4))
                    (of_ℕ 400)
                  ∷ fill (shade p r1) (shade p r2) (shade p r3)
                  ∷ page.log))
  unfolding key_pressed setup
  key_pressed-setup key r1 r2 r3 s = elim (key_index_cases key) [
    | inl (missing, other) ↦ inl (other, rw missing refl)
    | inr (k, found, letter) ↦ inr (k, letter, rw found refl)
  ]
