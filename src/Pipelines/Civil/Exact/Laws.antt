-- ===== src/Pipelines/Civil/Exact/Laws.antt =====
-- A number of days is the number of days of its civil date, on integers without an end.
use stardelt_nova.Prelude.{
  ℕ, ◌+◌, ◌-◌, ◌*◌, ◌/◌, ◌%◌, ◌<◌, ◌≤◌, ◌≡◌, refl, ap, ◌∙◌, leb, ltb, true, false, arith,
  Bool-cases, inl, inr,
}
use stardelt_nova.Prelude.Int.{
  ℤ, pos, negsuc, ◌+ℤ◌, ◌-ℤ◌, ◌*ℤ◌, tdiv, as_u64, pos_part, neg_part, eq_of_parts, +ℤ-parts,
  -ℤ-parts, *ℤ-parts,
}
use stardelt_nova.Pipelines.Civil.{day_of_era, year_of_era, day_of_year, month_of_day}
use stardelt_nova.Pipelines.Civil.Exact.{era_exact, days_exact, civil_exact, date_exact}

-- The year of the era is one of 400, and its day one of 366.
pub year_bounds :
    (doe : ℕ)
    → doe < 146097
    → (year_of_era doe < 400)
      × (365 * year_of_era doe + year_of_era doe / 4 - year_of_era doe / 100 ≤ doe)
      × (doe - (365 * year_of_era doe + year_of_era doe / 4 - year_of_era doe / 100) ≤ 365)
unfolding year_of_era
year_bounds doe h = omega arith

month_bounds :
    (doy : ℕ)
    → doy ≤ 365
    → (month_of_day doy < 12)
      × ((153 * month_of_day doy + 2) / 5 ≤ doy)
      × (doy - (153 * month_of_day doy + 2) / 5 ≤ 30)
unfolding month_of_day
month_bounds doy h = omega arith

-- `r` is what the era leaves of `x`.
abbrev pub IsRest : ℕ → ℤ → ℤ → ℕ → Type 0
IsRest k x era r = (r < k) × (pos_part x + neg_part era * k ≡ neg_part x + pos_part era * k + r)

pub era-IsRest_400 : (x : ℤ) → (r : ℕ) × IsRest 400 x (era_exact 400 x) r
unfolding era_exact tdiv ◌-ℤ◌
era-IsRest_400 (pos n) = (n % 400, (omega arith, ground arith))
era-IsRest_400 (negsuc n) = (399 - n % 400, (omega arith, ground arith))

pub era-IsRest_146097 : (x : ℤ) → (r : ℕ) × IsRest 146097 x (era_exact 146097 x) r
unfolding era_exact tdiv ◌-ℤ◌
era-IsRest_146097 (pos n) = (n % 146097, (omega arith, ground arith))
era-IsRest_146097 (negsuc n) = (146096 - n % 146097, (omega arith, ground arith))

pub as_u64_rest :
    (k : ℕ) (x era : ℤ) (r : ℕ) → k ≤ 146097 → IsRest k x era r → as_u64 (x -ℤ era *ℤ k) ≡ r
as_u64_rest k x era r small (lt, e) =
    rw (eq_of_parts (x -ℤ era *ℤ k) (pos r) (omega (arith, -ℤ-parts x (era *ℤ k), *ℤ-parts era k)))
      (unfold as_u64 in omega arith)

era_unique : (x e f : ℤ) (r s : ℕ) → IsRest 400 x e r → IsRest 400 x f s → (e ≡ f) × (r ≡ s)
era_unique x e f r s (p, a) (q, b) = (eq_of_parts e f (omega arith), omega arith)

-- A year of an era, put together, is taken apart again.
module _ (era : ℤ) (yoe : ℕ) (small : yoe < 400) where
  year-IsRest : IsRest 400 (pos yoe +ℤ era *ℤ 400) era yoe
  year-IsRest = (small, omega (arith, +ℤ-parts (pos yoe) (era *ℤ 400), *ℤ-parts era 400))

  era_exact-year : era_exact 400 (pos yoe +ℤ era *ℤ 400) ≡ era
  era_exact-year =
      let year = pos yoe +ℤ era *ℤ 400 in
      let (r, rest) = era-IsRest_400 year in
      (era_unique year (era_exact 400 year) era r yoe rest year-IsRest).0

  yoe-year : as_u64 ((pos yoe +ℤ era *ℤ 400) -ℤ era *ℤ 400) ≡ yoe
  yoe-year = as_u64_rest 400 (pos yoe +ℤ era *ℤ 400) era yoe (omega arith) year-IsRest

succ_pred : (y : ℤ) → (y +ℤ pos 1) -ℤ pos 1 ≡ y
succ_pred y = eq_of_parts _ _ (omega (arith, -ℤ-parts (y +ℤ pos 1) (pos 1), +ℤ-parts y (pos 1)))

-- `days_exact` at the date of a year of an era, a month from March and a day.
module _ (era : ℤ) (yoe m day : ℕ) (small : yoe < 400) where
  abbrev the_year : ℤ
  the_year = pos yoe +ℤ era *ℤ 400

  abbrev the_days : ℤ
  the_days = era *ℤ 146097 +ℤ pos (day_of_era yoe m day) -ℤ pos 719468

  days_from-March : m < 10 → days_exact the_year (m + 3) day ≡ the_days
  unfolding days_exact
  days_from-March h =
      let late : leb (m + 3) 2 ≡ false = ground arith in
      let index : ltb 2 (m + 3) ≡ true = ground arith in
      let back : m + 3 - 3 ≡ m = omega arith in
      rw (late, index, back, era_exact-year era yoe small, yoe-year era yoe small)

  days_from-January : 10 ≤ m → m < 12 → days_exact (the_year +ℤ pos 1) (m - 9) day ≡ the_days
  unfolding days_exact
  days_from-January h k =
      let early : leb (m - 9) 2 ≡ true = ground arith in
      let index : ltb 2 (m - 9) ≡ false = ground arith in
      let back : m - 9 + 9 ≡ m = omega arith in
      rw (
        early,
        index,
        back,
        succ_pred the_year,
        era_exact-year era yoe small,
        yoe-year era yoe small,
      )

-- The day of the era is put together again from its parts.
day_of_era-parts :
    (doe : ℕ)
    → doe < 146097
    → (let doy = day_of_year doe in
        let m = month_of_day doy in day_of_era (year_of_era doe) m (doy - (153 * m + 2) / 5 + 1))
      ≡ doe
unfolding day_of_era day_of_year
day_of_era-parts doe h =
    let (_, le, top) = year_bounds doe h in
    let (_, fits, _) = month_bounds (day_of_year doe) top in omega arith

add_sub_cancel :
    (d x e : ℤ) (r : ℕ)
    → x ≡ d +ℤ pos 719468
    → IsRest 146097 x e r
    → e *ℤ 146097 +ℤ pos r -ℤ pos 719468 ≡ d
add_sub_cancel d x e r p (lt, q) = eq_of_parts _ _ (
    omega (
      arith,
      -ℤ-parts (e *ℤ 146097 +ℤ pos r) (pos 719468),
      +ℤ-parts (e *ℤ 146097) (pos r),
      *ℤ-parts e 146097,
      +ℤ-parts d (pos 719468),
      ap pos_part p,
      ap neg_part p,
    ))

pub IsRest-lt : (k : ℕ) (x e : ℤ) (r : ℕ) → IsRest k x e r → r < k
IsRest-lt k x e r h = h.0

module _ (era : ℤ) (doe : ℕ) (h : doe < 146097) where
  date_exact-month :
      (1 ≤ (date_exact era doe).1)
      × ((date_exact era doe).1 ≤ 12)
      × (1 ≤ (date_exact era doe).2)
      × ((date_exact era doe).2 ≤ 31)
  unfolding date_exact
  date_exact-month =
      let (_, _, top) = year_bounds doe h in
      let (twelve, _, thirty) = month_bounds (day_of_year doe) (unfold day_of_year in top) in
      (ground arith, ground arith, omega arith, omega arith)

  days_from-date_exact :
      days_exact (date_exact era doe).0 (date_exact era doe).1 (date_exact era doe).2
      ≡ era *ℤ 146097 +ℤ pos doe -ℤ pos 719468
  unfolding date_exact
  days_from-date_exact =
      let doy = day_of_year doe in
      let m = month_of_day doy in
      let yoe = year_of_era doe in
      let day = doy - (153 * m + 2) / 5 + 1 in
      let (small, _, top) = year_bounds doe h in
      let (twelve, _, _) = month_bounds doy (unfold day_of_year in top) in
      let whole : day_of_era yoe m day ≡ doe = day_of_era-parts doe h in
      elim (Bool-cases (ltb m 10)) [
        | inl spring ↦
            let late : leb (m + 3) 2 ≡ false = ground arith in
            rw (spring, late, days_from-March era yoe m day small (ground arith), whole)
        | inr winter ↦
            let early : leb (m - 9) 2 ≡ true = ground arith in
            rw (winter, early, days_from-January era yoe m day small (ground arith) twelve, whole)
      ]

  date_of_lem :
      (1 ≤ (date_exact era doe).1)
      × ((date_exact era doe).1 ≤ 12)
      × (1 ≤ (date_exact era doe).2)
      × ((date_exact era doe).2 ≤ 31)
      × (days_exact (date_exact era doe).0 (date_exact era doe).1 (date_exact era doe).2
          ≡ era *ℤ 146097 +ℤ pos doe -ℤ pos 719468)
  date_of_lem =
      let (low, high, first, last) = date_exact-month in
      (low, high, first, last, days_from-date_exact)

pub days_exact-civil_exact :
    (days : ℤ)
    → (1 ≤ (civil_exact days).1)
      × ((civil_exact days).1 ≤ 12)
      × (1 ≤ (civil_exact days).2)
      × ((civil_exact days).2 ≤ 31)
      × (days_exact (civil_exact days).0 (civil_exact days).1 (civil_exact days).2 ≡ days)
unfolding civil_exact
days_exact-civil_exact days =
    let shifted = days +ℤ pos 719468 in
    let era = era_exact 146097 shifted in
    let (r, rest) = era-IsRest_146097 shifted in
    let at : as_u64 (shifted -ℤ era *ℤ 146097) ≡ r =
      as_u64_rest 146097 shifted era r (omega arith) rest in
    rw at (
      let (low, high, first, last, e) = date_of_lem era r (IsRest-lt 146097 shifted era r rest) in
      (low, high, first, last, e ∙ add_sub_cancel days shifted era r refl rest))
