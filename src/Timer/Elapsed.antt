-- ===== src/Timer/Elapsed.antt =====
-- The days that `class Timer` hands out over a run of the program.
use fhmuenster.Base.{ℕ, ◌+◌, ◌-◌, ◌≤◌, ◌≡◌, refl, ◌≢◌, List, [], ◌∷◌, map, arith, All}
use fhmuenster.Platform.{Platform}
use fhmuenster.Timer.{Timer, new_timer, days_passed}

-- What each call returns, given the two readings of the clock that each call makes.
unfoldable pub frames : {p : Platform} → Timer p → List (ℕ × ℕ) → List p.R
frames t [] = []
frames t ((first, second) ∷ rs) =
    (days_passed first second t).0 ∷ frames (days_passed first second t).1 rs

-- The stretches of time that the calls account for: from the second reading of one call to the
-- first of the next.
abbrev pub stretches : ℕ → List (ℕ × ℕ) → List (ℕ × ℕ)
stretches last [] = []
stretches last ((first, second) ∷ rs) = (last, first) ∷ stretches second rs

abbrev pub days_of : (p : Platform) → p.R → ℕ × ℕ → p.R
days_of p days_per_sec (from, to) =
    p.mul days_per_sec (p.div (p.sub (p.of_ℕ to) (p.of_ℕ from)) (p.of_ℕ 1000))

abbrev pub total : List (ℕ × ℕ) → ℕ
total [] = 0
total ((from, to) ∷ xs) = (to - from) + total xs

abbrev pub last_reading : ℕ → List (ℕ × ℕ) → ℕ
last_reading last [] = last
last_reading last ((first, second) ∷ rs) = last_reading second rs

-- The clock does not run backwards.
abbrev pub IsRunning : ℕ → List (ℕ × ℕ) → Type 0
IsRunning last [] = Unit
IsRunning last ((first, second) ∷ rs) = (last ≤ first) × (first ≤ second) × IsRunning second rs

frames_lem :
    (p : Platform) (d : p.R) (last : ℕ) (rs : List (ℕ × ℕ))
    → last ≢ 0
    → All (λ r. r.1 ≢ 0) rs
    → frames (new_timer {p = p} d last) rs ≡ map (days_of p d) (stretches last rs)
unfolding frames new_timer days_passed
frames_lem p d last [] h a = refl
frames_lem p d last ((first, second) ∷ rs) h (h', a) = ground (arith, frames_lem p d second rs h' a)

last-le : (last : ℕ) (rs : List (ℕ × ℕ)) → IsRunning last rs → last ≤ last_reading last rs
last-le last [] r = omega arith
last-le last ((first, second) ∷ rs) (a, b, r) = omega (arith, last-le second rs r)

total-stretches :
    (last : ℕ) (rs : List (ℕ × ℕ))
    → IsRunning last rs
    → total (stretches last rs) + total rs + last ≡ last_reading last rs
total-stretches last [] r = omega arith
total-stretches last ((first, second) ∷ rs) (a, b, r) = omega (arith, total-stretches second rs r)

-- On a clock that is past 0 and does not run backwards, each call returns the days of the time
-- from the previous call's second reading to its own first one. These stretches, and the time
-- between the two readings of each call, which counts for no call, make up the time from the
-- constructor's reading to the last one.
pub frames-stretches :
    (p : Platform) (d : p.R) (now : ℕ) (rs : List (ℕ × ℕ))
    → now ≢ 0
    → All (λ r. r.1 ≢ 0) rs
    → IsRunning now rs
    → (frames (new_timer {p = p} d now) rs ≡ map (days_of p d) (stretches now rs))
      × (total (stretches now rs) + total rs + now ≡ last_reading now rs)
frames-stretches p d now rs h a r = (frames_lem p d now rs h a, total-stretches now rs r)
