-- ===== src/Pipelines/Civil.antt =====
-- `days_from_civil` and `civil_from_days` of backend/src/pipelines.rs (Howard Hinnant's
-- algorithm). The i64 operations wrap, as in the release build, and a cast to u64 takes an integer
-- modulo 2 ^ 64. The u64 numbers are days and years of one era, unless an i64 operation before
-- them has wrapped; that they could wrap after that is left out.
pub mod Exact
pub mod RoundTrip
mod Tests
use stardelt_nova.Prelude.{ℕ, ◌+◌, ◌-◌, ◌*◌, ◌/◌, leb, ltb, if◌then◌else◌}
use stardelt_nova.Prelude.Int.{ℤ, pos, add64, sub64, mul64, tdiv, as_u64, as_i64, is_negative}

-- `if x >= 0 { x } else { x - (k - 1) } / k`.
unfoldable pub era_of : ℕ → ℤ → ℤ
unfolding tdiv sub64
era_of k x = tdiv (if is_negative x then sub64 x (pos (k - 1)) else x) k

-- The day of the era of 400 years, from the year of the era, the month counted from March, and
-- the day of the month.
unfoldable pub day_of_era : ℕ → ℕ → ℕ → ℕ
day_of_era yoe month_index day =
    let doy = (153 * month_index + 2) / 5 + day - 1 in yoe * 365 + yoe / 4 - yoe / 100 + doy

unfoldable pub days_from_civil : ℤ → ℕ → ℕ → ℤ
unfolding era_of day_of_era add64 sub64 mul64 as_i64 as_u64
days_from_civil year month day =
    let shifted = if leb month 2 then sub64 year (pos 1) else year in
    let era = era_of 400 shifted in
    let yoe = as_u64 (sub64 shifted (mul64 era 400)) in
    let month_index = if ltb 2 month then month - 3 else month + 9 in
    sub64 (add64 (mul64 era 146097) (as_i64 (pos (day_of_era yoe month_index day)))) (pos 719468)

unfoldable pub year_of_era : ℕ → ℕ
year_of_era day_of_era =
    (day_of_era - day_of_era / 1460 + day_of_era / 36524 - day_of_era / 146096) / 365

unfoldable pub day_of_year : ℕ → ℕ
unfolding year_of_era
day_of_year doe = let yoe = year_of_era doe in doe - (365 * yoe + yoe / 4 - yoe / 100)

unfoldable pub month_of_day : ℕ → ℕ
month_of_day doy = (5 * doy + 2) / 153

-- The date of a day of an era: the second half of `civil_from_days`.
unfoldable pub date_of : ℤ → ℕ → ℤ × ℕ × ℕ
unfolding year_of_era day_of_year month_of_day add64 mul64
date_of era doe =
    let year = add64 (pos (year_of_era doe)) (mul64 era 400) in
    let doy = day_of_year doe in
    let month_index = month_of_day doy in
    let day = doy - (153 * month_index + 2) / 5 + 1 in
    let month = if ltb month_index 10 then month_index + 3 else month_index - 9 in
    (if leb month 2 then add64 year (pos 1) else year, month, day)

unfoldable pub civil_from_days : ℤ → ℤ × ℕ × ℕ
unfolding era_of date_of add64 sub64 mul64 as_u64
civil_from_days days =
    let shifted = add64 days (pos 719468) in
    let era = era_of 146097 shifted in date_of era (as_u64 (sub64 shifted (mul64 era 146097)))
