-- ===== src/Pipelines/Cron/Tests.antt =====
-- Schedules read from text.
use stardelt_nova.Prelude.{◌-◌, ◌^◌, ◌≡◌, refl, ◌↔◌, true, false, some, [], ◌∷◌, arith}
use stardelt_nova.Prelude.Results.{ok, err}
use stardelt_nova.Pipelines.Cron.{
  fill, fill_ended, rounds, fires_too_often, parse_cron, cron_field, cron_fields, cron_range,
  cron_too_often, weekday_names,
}
use stardelt_nova.NumberSet.{contains}
use stardelt_nova.Pipelines.Cron.Loop.{fill_enough}
use stardelt_nova.Pipelines.Cron.Steps.{contains-fill_wrapped}
use stardelt_nova.Pipelines.Cron.Gaps.{IsSpaced, fires_too_often_iff}
use stardelt_nova.Pipelines.Cron.Bounds.{IsSchedule, parse_cron-IsSchedule}

quarters : cron_field "*/15" 0 59 [] ≡ ok (0 ∷ 15 ∷ 30 ∷ 45 ∷ [])
unfolding cron_field
quarters = refl

mixed : cron_field "MON-wed,6" 0 7 weekday_names ≡ ok (1 ∷ 2 ∷ 3 ∷ 6 ∷ [])
unfolding cron_field
mixed = refl

step_on_single : cron_field "5/2" 0 59 [] ≡ err cron_range
unfolding cron_field
step_on_single = refl

-- A step close to 2 ^ 32 wraps and puts 0 into a field that counts from 1.
wraps : cron_field "*/4294967295" 1 31 [] ≡ ok (0 ∷ 1 ∷ [])
unfolding cron_field
wraps = refl

too_often : parse_cron "*/4 * * * *" ≡ err cron_too_often
unfolding parse_cron
too_often = refl

four_fields : parse_cron "0 3 * *" ≡ err cron_fields
unfolding parse_cron
four_fields = refl

sundays :
    parse_cron "0 3 1 1 7"
    ≡ ok (record {
      minutes = 0 ∷ [];
      hours = 3 ∷ [];
      days = 1 ∷ [];
      months = 1 ∷ [];
      weekdays = 0 ∷ [];
    })
unfolding parse_cron
sundays = refl

fill_enough_example : fill_ended rounds 15 59 0 [] ≡ some (fill rounds 15 59 0 [])
fill_enough_example = fill_enough 15 59 0 [] (omega arith) (omega arith) (omega arith) (omega arith)

contains-fill_wrapped_example : contains (fill rounds (2 ^ 32 - 1) 31 1 []) (1 - 1) ≡ true
contains-fill_wrapped_example =
    contains-fill_wrapped 31 1 1 [] (omega arith) (omega arith) (omega arith) (omega arith)

fires_too_often_iff_example :
    (fires_too_often (0 ∷ 15 ∷ 30 ∷ 45 ∷ []) ≡ false) ↔ IsSpaced (0 ∷ 15 ∷ 30 ∷ 45 ∷ [])
fires_too_often_iff_example =
    fires_too_often_iff (0 ∷ 15 ∷ 30 ∷ 45 ∷ [])
      (omega arith, (omega arith, (omega arith, (omega arith, tt))))

parse_cron-IsSchedule_example :
    IsSchedule (record {
      minutes = 0 ∷ [];
      hours = 3 ∷ [];
      days = 1 ∷ [];
      months = 1 ∷ [];
      weekdays = 0 ∷ [];
    })
parse_cron-IsSchedule_example = parse_cron-IsSchedule "0 3 1 1 7" _ sundays
