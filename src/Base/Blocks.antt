-- ===== src/Base/Blocks.antt =====
-- Lists made of blocks of one length, as a loop builds them that pushes a few values a round.
use fhmuenster.Base.{
  ℕ, zero, suc, ◌+◌, ◌*◌, ◌<◌, ◌≡◌, refl, ap, ◌∙◌, List, [], ◌∷◌, ◌++◌, arith, length, get_elem?,
  length-append, All, All-append,
}

module _ {ℓ} {A : Type ℓ} where
  pub get_elem?-append_left :
      (xs ys : List A) (i : ℕ) → i < length xs → get_elem? (xs ++ ys) i ≡ get_elem? xs i
  get_elem?-append_left [] ys i h = elim h [ ]
  get_elem?-append_left (x ∷ xs) ys zero h = refl
  get_elem?-append_left (x ∷ xs) ys (suc i) h = get_elem?-append_left xs ys i (omega arith)

  pub get_elem?-append_right :
      (xs ys : List A) (i j : ℕ) → j ≡ length xs + i → get_elem? (xs ++ ys) j ≡ get_elem? ys i
  get_elem?-append_right [] ys i j h = ap (get_elem? ys) (omega arith)
  get_elem?-append_right (x ∷ xs) ys i zero h = absurd (omega arith)
  get_elem?-append_right (x ∷ xs) ys i (suc j) h = get_elem?-append_right xs ys i j (omega arith)

  unfoldable pub blocks : (ℕ → List A) → ℕ → ℕ → List A
  blocks f zero j = []
  blocks f (suc n) j = f j ++ blocks f n (j + 1)

  module _ (f : ℕ → List A) (k : ℕ) (size : (j : ℕ) → length (f j) ≡ k) where
    pub length-blocks : (n j : ℕ) → length (blocks f n j) ≡ n * k
    unfolding blocks
    length-blocks zero j = omega arith
    length-blocks (suc n) j =
        omega (arith, length-append (f j) (blocks f n (j + 1)), size j, length-blocks n (j + 1))

    pub get_elem?-blocks :
        (n j a c i : ℕ)
        → a < n
        → c < k
        → i ≡ a * k + c
        → get_elem? (blocks f n j) i ≡ get_elem? (f (j + a)) c
    unfolding blocks
    get_elem?-blocks zero j a c i h hc e = elim h [ ]
    get_elem?-blocks (suc n) j zero c i h hc e =
        let here : i ≡ c = omega arith in
        let first : j + 0 ≡ j = omega arith in
        rw (here, first)
          (get_elem?-append_left (f j) (blocks f n (j + 1)) c (omega (arith, size j)))
    get_elem?-blocks (suc n) j (suc a) c i h hc e =
        let later : j + suc a ≡ j + 1 + a = omega arith in
        rw later (
          get_elem?-append_right (f j) (blocks f n (j + 1)) (a * k + c) i (omega (arith, size j))
          ∙ get_elem?-blocks n (j + 1) a c (a * k + c) (omega arith) hc refl)

  pub All-blocks {κ} :
      (P : A → Type κ) (f : ℕ → List A) (n j : ℕ)
      → ((i : ℕ) → i < j + n → All P (f i))
      → All P (blocks f n j)
  unfolding blocks
  All-blocks P f zero j h = tt
  All-blocks P f (suc n) j h =
      All-append P (f j) (blocks f n (j + 1)) (h j (omega arith))
        (All-blocks P f n (j + 1) (λ i lt. h i (omega arith)))
