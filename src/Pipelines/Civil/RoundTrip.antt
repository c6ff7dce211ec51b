-- ===== src/Pipelines/Civil/RoundTrip.antt =====
-- Near zero no operation wraps, and a number of days is the number of days of its civil date.
use stardelt_nova.Prelude.{ℕ, ◌^◌, ◌<◌, ◌≤◌, leb, if◌then◌else◌}
use stardelt_nova.Prelude.Int.{ℤ, pos, ◌+ℤ◌, ◌-ℤ◌, ◌*ℤ◌, pos_part, neg_part}
use stardelt_nova.Pipelines.Civil.{year_of_era}
use stardelt_nova.Pipelines.Civil.Exact.{era_exact}

-- At most `b` away from zero.
abbrev pub Near : ℕ → ℤ → Type 0
Near b z = (pos_part z ≤ b) × (neg_part z ≤ b)

-- The date of a day of an era.
module _ (era : ℤ) (near : Near (2 ^ 43) era) (doe : ℕ) (h : doe < 146097) where
  abbrev first_year : ℤ
  first_year = pos (year_of_era doe) +ℤ era *ℤ 400

-- `civil_from_days`.
module _ (days : ℤ) (near : Near (2 ^ 60) days) where
  abbrev shifted : ℤ
  shifted = days +ℤ pos 719468

  abbrev the_era : ℤ
  the_era = era_exact 146097 shifted

-- `days_from_civil` behind the shift of the year.
module _ (year : ℤ) (month day : ℕ) (near : Near (2 ^ 52) year) (m : month ≤ 12)
    (d : day ≤ 31) where
  abbrev from_March : ℤ
  from_March = if leb month 2 then year -ℤ pos 1 else year
