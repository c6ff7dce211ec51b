-- ===== src/Pipelines/Cron.antt =====
-- The cron schedules of backend/src/pipelines.rs: `cron_value`, `cron_field`, `fires_too_often`
-- and `parse_cron`. The numbers are u32, and the sum in the loop wraps, as in the release build
-- (cargo's default for it) that the image runs.
pub mod Loop
pub mod Steps
pub mod Bounds
pub mod Gaps
mod Tests
use stardelt_nova.Prelude.{
  ℕ, zero, suc, ◌+◌, ◌-◌, ◌%◌, ◌^◌, String, Bool, true, false, not, ◌&&◌, ◌||◌, Option, none, some,
  List, [], ◌∷◌, leb, ltb, ◌==◌, if◌then◌else◌, str_eq, length,
}
use stardelt_nova.Prelude.Results.{Result, ok, err, ◌>>=◌, ◌>>◌, guard}
use stardelt_nova.Text.{
  is_empty, has_char, split_once, split_on, split_space, parse_unsigned, eq_ignore_case,
}
use stardelt_nova.NumberSet.{insert, remove, contains}

abbrev pub cron_fields : String
cron_fields = "a schedule has five fields: minute hour day month weekday"

abbrev pub cron_range : String
cron_range = "a field is out of range"

abbrev pub cron_too_often : String
cron_too_often = "at most one run every 5 minutes"

abbrev pub month_names : List String
month_names =
    "jan" ∷ "feb" ∷ "mar" ∷ "apr" ∷ "may" ∷ "jun" ∷ "jul" ∷ "aug" ∷ "sep" ∷ "oct" ∷ "nov" ∷ "dec"
    ∷ []

abbrev pub weekday_names : List String
weekday_names = "sun" ∷ "mon" ∷ "tue" ∷ "wed" ∷ "thu" ∷ "fri" ∷ "sat" ∷ []

-- `names.iter().position(|name| name.eq_ignore_ascii_case(text))`.
position : String → ℕ → List String → Option ℕ
unfolding eq_ignore_case
position text at [] = none
position text at (name ∷ names) =
    let later = position text (at + 1) names in if eq_ignore_case name text then some at else later

unfoldable pub in_range : ℕ → ℕ → ℕ → Result String ℕ
in_range lowest highest value =
    if ltb value lowest || ltb highest value then err cron_range else ok value

unfoldable pub cron_value : String → ℕ → ℕ → List String → Result String ℕ
unfolding in_range position parse_unsigned
cron_value text lowest highest names = elim (parse_unsigned 32 text) [
  | some number ↦ in_range lowest highest number
  | none ↦ elim (position text 0 names) [
    | some index ↦ in_range lowest highest (lowest + index)
    | none ↦ err cron_range
  ]
]

-- The `while value <= end` loop, on fuel: `finished` has the values when the test of the loop fails,
-- and `stuck` when the fuel is spent before that.
unfoldable pub fill_with : {R : Type 0} → (List ℕ → R) → (List ℕ → R) → ℕ → ℕ → ℕ → ℕ → List ℕ → R
unfolding insert
fill_with stuck finished zero step last value values = stuck values
fill_with stuck finished (suc fuel) step last value values =
    let more =
      fill_with stuck finished fuel step last ((value + step) % 2 ^ 32) (insert value values) in
    if leb value last then more else finished values

-- The values of the loop.
unfoldable pub fill : ℕ → ℕ → ℕ → ℕ → List ℕ → List ℕ
unfolding fill_with
fill fuel step last value values =
    fill_with (λ spent. spent) (λ done. done) fuel step last value values

-- The values of the loop where it ends by its test.
unfoldable pub fill_ended : ℕ → ℕ → ℕ → ℕ → List ℕ → Option (List ℕ)
unfolding fill_with
fill_ended fuel step last value values =
    fill_with (λ spent. none) (λ done. some done) fuel step last value values

-- No loop over a range below 64 takes more rounds than this.
abbrev pub rounds : ℕ
rounds = 66

-- The body of a part and its step, a text of its own behind a slash.
part_step : String → Result String (String × ℕ)
unfolding split_once has_char parse_unsigned
part_step part = elim (split_once b'/' part) [
  | none ↦ ok (part, 1)
  | some (body, step) ↦
      if has_char b'/' step then err cron_range else elim (parse_unsigned 32 step) [
        | none ↦ err cron_range
        | some n ↦ if leb 1 n then ok (body, n) else err cron_range
      ]
]

two_ends : String → String → ℕ → ℕ → List String → Result String (ℕ × ℕ)
unfolding cron_value
two_ends start end lowest highest names = do
  a ← cron_value start lowest highest names
  b ← cron_value end lowest highest names
  if ltb b a then err cron_range else ok (a, b)

-- Only `*` and a range take a step.
one_value : String → ℕ → ℕ → ℕ → List String → Result String (ℕ × ℕ)
unfolding cron_value
one_value body step lowest highest names = do
  single ← cron_value body lowest highest names
  if step == 1 then ok (single, single) else err cron_range

-- The first and the last value of a part.
part_range : String → ℕ → ℕ → ℕ → List String → Result String (ℕ × ℕ)
unfolding two_ends one_value split_once
part_range body step lowest highest names =
    if str_eq body "*" then ok (lowest, highest) else elim (split_once b'-' body) [
      | some (start, end) ↦ two_ends start end lowest highest names
      | none ↦ one_value body step lowest highest names
    ]

-- One round of the loop over the comma list.
unfoldable pub add_part : ℕ → ℕ → List String → String → List ℕ → Result String (List ℕ)
unfolding part_step part_range fill
add_part lowest highest names part values = do
  guard (not (is_empty part)) cron_range
  stepped ← part_step part
  range ← part_range stepped.0 stepped.1 lowest highest names
  ok (fill rounds stepped.1 range.1 range.0 values)

add_parts : ℕ → ℕ → List String → List String → List ℕ → Result String (List ℕ)
unfolding add_part
add_parts lowest highest names [] values = ok values
add_parts lowest highest names (part ∷ parts) values =
    add_part lowest highest names part values >>= λ more. add_parts lowest highest names parts more

unfoldable pub cron_field : String → ℕ → ℕ → List String → Result String (List ℕ)
unfolding add_parts split_on
cron_field field lowest highest names = add_parts lowest highest names (split_on b',' field) []

unfoldable pub cron_minutes : String → Result String (List ℕ)
unfolding cron_field
cron_minutes field = cron_field field 0 59 []

-- `values.windows(2).any(|pair| pair[1] - pair[0] < 5)`.
close_pair : List ℕ → Bool
close_pair [] = false
close_pair (a ∷ []) = false
close_pair (a ∷ b ∷ more) = ltb (b - a) 5 || close_pair (b ∷ more)

last_of : ℕ → List ℕ → ℕ
last_of a [] = a
last_of a (b ∷ more) = last_of b more

-- The gap from the last minute of an hour to the first of the next.
close_wrap : List ℕ → Bool
unfolding last_of
close_wrap [] = false
close_wrap (a ∷ []) = false
close_wrap (a ∷ b ∷ more) = ltb (60 - last_of b more + a) 5

unfoldable pub fires_too_often : List ℕ → Bool
unfolding close_pair close_wrap
fires_too_often minutes = ltb 12 (length minutes) || close_pair minutes || close_wrap minutes

pub record CronSchedule : Type 0 where
  pub minutes : List ℕ
  pub hours : List ℕ
  pub days : List ℕ
  pub months : List ℕ
  pub weekdays : List ℕ

-- `7` is Sunday too.
sunday : List ℕ → List ℕ
unfolding contains insert remove
sunday weekdays = if contains weekdays 7 then insert 0 (remove 7 weekdays) else weekdays

of_fields : String → String → String → String → String → Result String CronSchedule
unfolding cron_minutes cron_field sunday fires_too_often
of_fields minute hour day month weekday = do
  minutes ← cron_minutes minute
  hours ← cron_field hour 0 23 []
  days ← cron_field day 1 31 []
  months ← cron_field month 1 12 month_names
  weekdays ← cron_field weekday 0 7 weekday_names
  guard (not (fires_too_often minutes)) cron_too_often
  ok (record {
    minutes = minutes;
    hours = hours;
    days = days;
    months = months;
    weekdays = sunday weekdays;
  })

five : List String → Result String CronSchedule
unfolding of_fields
five (a ∷ b ∷ c ∷ d ∷ e ∷ []) = of_fields a b c d e
five _ = err cron_fields

unfoldable pub parse_cron : String → Result String CronSchedule
unfolding five split_space
parse_cron cron = five (split_space cron)
