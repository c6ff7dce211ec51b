-- ===== src/Pipelines/Civil/Tests.antt =====
-- Days and dates around the epoch.
use stardelt_nova.Prelude.{◌≡◌, refl}
use stardelt_nova.Prelude.Int.{pos, negsuc}
use stardelt_nova.Pipelines.Civil.{days_from_civil, civil_from_days}

leap_day : days_from_civil (pos 2024) 2 29 ≡ pos 19782
unfolding days_from_civil
leap_day = refl

day_before : civil_from_days (negsuc 0) ≡ (pos 1969, 12, 31)
unfolding civil_from_days
day_before = refl
