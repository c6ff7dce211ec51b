-- ===== src/Pipelines/Cron/Bounds.antt =====
-- What every accepted field and every accepted schedule holds.
use stardelt_nova.Prelude.{
  ℕ, suc, ◌≤◌, ◌<◌, ◌≡◌, String, false, not, List, [], ◌∷◌, arith, str_eq, All, Option-cases,
  Bool-cases, inl, inr, ◌==◌,
}
use stardelt_nova.Prelude.Results.{ok, >>=-eq-ok, guard}
use stardelt_nova.Text.{is_empty, split_on, split_space, split_once}
use stardelt_nova.NumberSet.{
  remove, contains, IsRising, All-insert, insert-IsRising, remove-IsRising,
}
use stardelt_nova.Pipelines.Cron.{
  CronSchedule, cron_too_often, cron_value, cron_range, two_ends, one_value, in_range, part_step,
  part_range, add_part, add_parts, cron_field, cron_minutes, fill, rounds, sunday, of_fields, five,
  parse_cron, fires_too_often, month_names, weekday_names,
}
use stardelt_nova.Pipelines.Cron.Loop.{fill_keeps}
use stardelt_nova.Pipelines.Cron.Gaps.{IsSpaced, fires_too_often_iff}

in_range-le : (low high value : ℕ) {v : ℕ} → in_range low high value ≡ ok v → (low ≤ v) × (v ≤ high)
unfolding in_range
in_range-le low high value h = (ground arith, ground arith)

-- A single value stands in the field's range.
pub cron_value-range :
    (text : String) (low high : ℕ) (names : List String) (v : ℕ)
    → cron_value text low high names ≡ ok v
    → (low ≤ v) × (v ≤ high)
unfolding cron_value in_range
cron_value-range text low high names v h = (ground arith, ground arith)

module _ (low high : ℕ) (names : List String) where
  two_ends-le :
      (start end : String) (r : ℕ × ℕ)
      → two_ends start end low high names ≡ ok r
      → (r.0 ≤ r.1) × (r.1 ≤ high)
  unfolding two_ends
  two_ends-le start end r h =
      let (a, first, h') = >>=-eq-ok (cron_value start low high names) _ h in
      let (b, second, h'') = >>=-eq-ok (cron_value end low high names) _ h' in
      let top = cron_value-range end low high names b second in ground arith

  one_value-le :
      (body : String) (step : ℕ) (r : ℕ × ℕ)
      → one_value body step low high names ≡ ok r
      → (r.0 ≤ r.1) × (r.1 ≤ high)
  unfolding one_value
  one_value-le body step r h =
      let (a, first, h') = >>=-eq-ok (cron_value body low high names) _ h in
      let top = cron_value-range body low high names a first in ground arith

  part_range-le :
      (body : String) (step : ℕ) (r : ℕ × ℕ)
      → part_range body step low high names ≡ ok r
      → low ≤ high
      → (r.0 ≤ r.1) × (r.1 ≤ high)
  unfolding part_range
  part_range-le body step r h le = elim (Bool-cases (str_eq body "*")) [
    | inl star ↦ ground arith
    | inr other ↦ elim (Option-cases (split_once b'-' body)) [
      | inl single ↦ one_value-le body step r (ground arith)
      | inr ((start, end), range) ↦ two_ends-le start end r (ground arith)
    ]
  ]

  -- The values that a field may hold.
  abbrev Holds : List ℕ → Type 0
  Holds values = All (λ v. v ≤ high) values × IsRising values

  add_part-Holds :
      (part : String) (values more : List ℕ)
      → low ≤ high
      → add_part low high names part values ≡ ok more
      → Holds values
      → Holds more
  unfolding add_part
  add_part-Holds part values more le h (below, rising) =
      let (_, _, h1) = >>=-eq-ok (guard (not (is_empty part)) cron_range) _ h in
      let (stepped, _, h2) = >>=-eq-ok (part_step part) _ h1 in
      let (range, e, h3) = >>=-eq-ok (part_range stepped.0 stepped.1 low high names) _ h2 in
      let (_, top) = part_range-le stepped.0 stepped.1 range e le in
      let same : fill rounds stepped.1 range.1 range.0 values ≡ more = cc in
      rw (← same) (fill_keeps stepped.1 range.1 high top rounds range.0 values below rising)

  add_parts-Holds :
      (parts : List String) (values more : List ℕ)
      → low ≤ high
      → add_parts low high names parts values ≡ ok more
      → Holds values
      → Holds more
  unfolding add_parts
  add_parts-Holds [] values more le h holds = let same : values ≡ more = cc in rw (← same) holds
  add_parts-Holds (part ∷ parts) values more le h holds =
      let (next, e, h') = >>=-eq-ok (add_part low high names part values) _ h in
      add_parts-Holds parts next more le h' (add_part-Holds part values next le e holds)

  -- An accepted field is a set in rising order with no value above the field's range.
  pub cron_field-Holds :
      (field : String) (values : List ℕ)
      → low ≤ high
      → cron_field field low high names ≡ ok values
      → All (λ v. v ≤ high) values × IsRising values
  unfolding cron_field
  cron_field-Holds field values le h = add_parts-Holds (split_on b',' field) [] values le h (tt, tt)

-- What an accepted schedule is.
pub record IsSchedule (s : CronSchedule) : Type 0 where
  pub minutes : All (λ v. v ≤ 59) s.minutes
  pub hours : All (λ v. v ≤ 23) s.hours
  pub days : All (λ v. v ≤ 31) s.days
  pub months : All (λ v. v ≤ 12) s.months
  pub weekdays : All (λ v. v ≤ 6) s.weekdays
  pub minutes_rise : IsRising s.minutes
  pub weekdays_rise : IsRising s.weekdays
  pub spaced : IsSpaced s.minutes

none_after :
    (w : ℕ) (ws : List ℕ) → w ≡ 7 → All (λ v. v ≤ 7) ws → All (λ y. w < y) ws → All (λ v. v ≤ 6) ws
none_after w [] e _ _ = tt
none_after w (x ∷ xs) e (p, ps) (q, qs) = absurd (omega arith)

drop_seven : (ws : List ℕ) → All (λ v. v ≤ 7) ws → IsRising ws → All (λ v. v ≤ 6) (remove 7 ws)
unfolding remove
drop_seven [] _ _ = tt
drop_seven (w ∷ ws) (le, les) (first, rest) = elim (Bool-cases (7 == w)) [
  | inl seven ↦ rw seven (none_after w ws (ground arith) les first)
  | inr other ↦ rw other (ground arith, drop_seven ws les rest)
]

no_seven : (ws : List ℕ) → All (λ v. v ≤ 7) ws → contains ws 7 ≡ false → All (λ v. v ≤ 6) ws
unfolding contains
no_seven [] _ _ = tt
no_seven (w ∷ ws) (le, les) h = (ground arith, no_seven ws les (ground arith))

sunday-weekdays :
    (ws : List ℕ)
    → All (λ v. v ≤ 7) ws
    → IsRising ws
    → All (λ v. v ≤ 6) (sunday ws) × IsRising (sunday ws)
unfolding sunday
sunday-weekdays ws le rising = elim (Bool-cases (contains ws 7)) [
  | inl seven ↦ rw seven (
    All-insert (λ v. v ≤ 6) 0 (remove 7 ws) (omega arith) (drop_seven ws le rising),
    insert-IsRising 0 (remove 7 ws) (remove-IsRising 7 ws rising),
  )
  | inr none_there ↦ rw none_there (no_seven ws le none_there, rising)
]

All-lt_of_le : (n : ℕ) (vs : List ℕ) → All (λ v. v ≤ n) vs → All (λ v. v < suc n) vs
All-lt_of_le n [] _ = tt
All-lt_of_le n (v ∷ vs) (p, ps) = (omega arith, All-lt_of_le n vs ps)

of_fields-IsSchedule :
    (a b c d e : String) (s : CronSchedule) → of_fields a b c d e ≡ ok s → IsSchedule s
unfolding of_fields cron_minutes
of_fields-IsSchedule a b c d e s h =
    let (mi, e1, h1) = >>=-eq-ok (cron_minutes a) _ h in
    let (ho, e2, h2) = >>=-eq-ok (cron_field b 0 23 []) _ h1 in
    let (da, e3, h3) = >>=-eq-ok (cron_field c 1 31 []) _ h2 in
    let (mo, e4, h4) = >>=-eq-ok (cron_field d 1 12 month_names) _ h3 in
    let (we, e5, h5) = >>=-eq-ok (cron_field e 0 7 weekday_names) _ h4 in
    let (_, e6, h6) = >>=-eq-ok (guard (not (fires_too_often mi)) cron_too_often) _ h5 in
    let (le1, up1) = cron_field-Holds 0 59 [] a mi (omega arith) e1 in
    let (le2, _) = cron_field-Holds 0 23 [] b ho (omega arith) e2 in
    let (le3, _) = cron_field-Holds 1 31 [] c da (omega arith) e3 in
    let (le4, _) = cron_field-Holds 1 12 month_names d mo (omega arith) e4 in
    let (le5, up5) = cron_field-Holds 0 7 weekday_names e we (omega arith) e5 in
    let (le6, up6) = sunday-weekdays we le5 up5 in
    let rare : fires_too_often mi ≡ false = ground arith in
    let whole : record { minutes = mi; hours = ho; days = da; months = mo; weekdays = sunday we }
        ≡ s =
      cc in
    rw (← whole) (record {
      minutes = le1;
      hours = le2;
      days = le3;
      months = le4;
      weekdays = le6;
      minutes_rise = up1;
      weekdays_rise = up6;
      spaced = (fires_too_often_iff mi (All-lt_of_le 59 mi le1)).0 rare;
    })

-- Every schedule that is accepted has minutes up to 59, hours up to 23, days up to 31, months up
-- to 12 and weekdays up to 6 (Sunday is 0, also where it was written 7), and any two of its
-- minutes are at least five apart, around the full hour too.
pub parse_cron-IsSchedule :
    (cron : String) (s : CronSchedule) → parse_cron cron ≡ ok s → IsSchedule s
unfolding parse_cron five
parse_cron-IsSchedule cron s h = of_five (split_space cron) h
  where
    of_five : (words : List String) → five words ≡ ok s → IsSchedule s
    of_five (a ∷ b ∷ c ∷ d ∷ e ∷ []) h = of_fields-IsSchedule a b c d e s h
    of_five [] h = cc
    of_five (a ∷ []) h = cc
    of_five (a ∷ b ∷ []) h = cc
    of_five (a ∷ b ∷ c ∷ []) h = cc
    of_five (a ∷ b ∷ c ∷ d ∷ []) h = cc
    of_five (a ∷ b ∷ c ∷ d ∷ e ∷ f ∷ more) h = cc
