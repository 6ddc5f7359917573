-- ===== src/Timer.antt =====
-- Computergrafik/src/szenegraph/timer.ts: `class Timer`. `Date.now()` is a whole number of
-- milliseconds; a call of `daysPassed` reads the clock up to two times, `first` and then `second`.
pub mod Elapsed
use fhmuenster.Base.{ℕ, ◌==◌, if◌then◌else◌}
use fhmuenster.Platform.{Platform}

pub record Timer (p : Platform) : Type 0 where
  pub days_per_sec : p.R
  pub last_date : ℕ

module _ {p : Platform} where
  open p use {R, of_ℕ, sub, mul, div}

  unfoldable pub new_timer : R → (now : ℕ) → Timer p
  new_timer days_per_sec now = record { days_per_sec = days_per_sec; last_date = now }

  unfoldable pub days_passed : (first second : ℕ) → Timer p → R × Timer p
  days_passed first second t =
      if t.last_date == 0 then (of_ℕ 0, record t { last_date = first }) else (
        mul t.days_per_sec (div (sub (of_ℕ first) (of_ℕ t.last_date)) (of_ℕ 1000)),
        record t { last_date = second },
      )
