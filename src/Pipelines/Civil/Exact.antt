-- ===== src/Pipelines/Civil/Exact.antt =====
-- The two conversions on integers without an end, of which those on i64 are the part near zero.
pub mod Laws
use stardelt_nova.Prelude.{ℕ, ◌+◌, ◌-◌, ◌*◌, ◌/◌, leb, ltb, if◌then◌else◌}
use stardelt_nova.Prelude.Int.{ℤ, pos, negsuc, ◌+ℤ◌, ◌-ℤ◌, ◌*ℤ◌, tdiv, as_u64, is_negative}
use stardelt_nova.Pipelines.Civil.{day_of_era, year_of_era, day_of_year, month_of_day}

unfoldable pub era_exact : ℕ → ℤ → ℤ
unfolding tdiv ◌-ℤ◌
era_exact k x = tdiv (if is_negative x then x -ℤ pos (k - 1) else x) k

unfoldable pub days_exact : ℤ → ℕ → ℕ → ℤ
unfolding era_exact day_of_era ◌+ℤ◌ ◌*ℤ◌ as_u64
days_exact year month day =
    let shifted = if leb month 2 then year -ℤ pos 1 else year in
    let era = era_exact 400 shifted in
    let yoe = as_u64 (shifted -ℤ era *ℤ 400) in
    let month_index = if ltb 2 month then month - 3 else month + 9 in
    era *ℤ 146097 +ℤ pos (day_of_era yoe month_index day) -ℤ pos 719468

unfoldable pub date_exact : ℤ → ℕ → ℤ × ℕ × ℕ
unfolding year_of_era day_of_year month_of_day ◌+ℤ◌ ◌*ℤ◌
date_exact era doe =
    let year = pos (year_of_era doe) +ℤ era *ℤ 400 in
    let doy = day_of_year doe in
    let month_index = month_of_day doy in
    let day = doy - (153 * month_index + 2) / 5 + 1 in
    let month = if ltb month_index 10 then month_index + 3 else month_index - 9 in
    (if leb month 2 then year +ℤ pos 1 else year, month, day)

unfoldable pub civil_exact : ℤ → ℤ × ℕ × ℕ
unfolding era_exact date_exact ◌+ℤ◌ ◌*ℤ◌ as_u64
civil_exact days =
    let shifted = days +ℤ pos 719468 in
    let era = era_exact 146097 shifted in date_exact era (as_u64 (shifted -ℤ era *ℤ 146097))
