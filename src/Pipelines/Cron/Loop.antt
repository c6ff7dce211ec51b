-- ===== src/Pipelines/Cron/Loop.antt =====
-- The loop that fills a field: it ends, and what it adds.
use stardelt_nova.Prelude.{
  ℕ, zero, suc, ◌+◌, ◌%◌, ◌^◌, ◌≤◌, ◌<◌, ◌≡◌, refl, inl, inr, true, false, some, List, leb, ltb,
  arith, All, Bool-cases,
}
use stardelt_nova.NumberSet.{insert, IsRising, All-insert, insert-IsRising}
use stardelt_nova.Pipelines.Cron.{fill, fill_ended, rounds}

module _ (step last : ℕ) where
  pub fill_stop :
      (fuel value : ℕ) (values : List ℕ) → last < value → fill fuel step last value values ≡ values
  unfolding fill
  fill_stop zero value values h = refl
  fill_stop (suc fuel) value values h = let past : leb value last ≡ false = ground arith in rw past

  pub fill_go :
      (fuel value : ℕ) (values : List ℕ)
      → value ≤ last
      → fill (suc fuel) step last value values
        ≡ fill fuel step last ((value + step) % 2 ^ 32) (insert value values)
  unfolding fill
  fill_go fuel value values h = let on : leb value last ≡ true = ground arith in rw on

  ended_stop :
      (fuel value : ℕ) (values : List ℕ)
      → last < value
      → fill_ended (suc fuel) step last value values ≡ some values
  unfolding fill_ended
  ended_stop fuel value values h = let past : leb value last ≡ false = ground arith in rw past refl

  ended_go :
      (fuel value : ℕ) (values : List ℕ)
      → value ≤ last
      → fill_ended (suc fuel) step last value values
        ≡ fill_ended fuel step last ((value + step) % 2 ^ 32) (insert value values)
  unfolding fill_ended
  ended_go fuel value values h = let on : leb value last ≡ true = ground arith in rw on refl

  -- The loop ends by its test, and not for want of fuel.
  Ends : ℕ → ℕ → List ℕ → Type 0
  Ends fuel value values =
      fill_ended fuel step last value values ≡ some (fill fuel step last value values)

  stops : (fuel value : ℕ) (values : List ℕ) → last < value → Ends (suc fuel) value values
  unfolding Ends
  stops fuel value values h =
      rw (ended_stop fuel value values h, fill_stop (suc fuel) value values h) refl

  goes_on :
      (fuel value : ℕ) (values : List ℕ)
      → value ≤ last
      → Ends fuel ((value + step) % 2 ^ 32) (insert value values)
      → Ends (suc fuel) value values
  unfolding Ends
  goes_on fuel value values h later =
      rw (ended_go fuel value values h, fill_go fuel value values h) later

  module _ (small : last < 64) where
    -- A step that cannot wrap leads upwards past the end.
    rising-Ends :
        (fuel value : ℕ) (values : List ℕ)
        → 1 ≤ step
        → step + 64 ≤ 2 ^ 32
        → last + 1 < fuel + value
        → value < 2 ^ 32
        → 1 ≤ fuel
        → Ends fuel value values
    rising-Ends zero value values p q h lt pos = absurd (omega arith)
    rising-Ends (suc fuel) value values p q h lt pos = elim (Bool-cases (leb value last)) [
      | inl on ↦
          let next : (value + step) % 2 ^ 32 ≡ value + step = ground arith in
          let le : value ≤ last = ground arith in
          goes_on fuel value values le (
            rw next (
              rising-Ends fuel (value + step) (insert value values) p q (omega arith) (omega arith)
                (omega arith)))
      | inr past ↦ stops fuel value values (ground arith)
    ]

    -- A step that wraps leads downwards, and from below its distance to 2 ^ 32 past the end.
    falling-Ends :
        (fuel value : ℕ) (values : List ℕ)
        → step < 2 ^ 32
        → 2 ^ 32 < step + 64
        → value + 1 < fuel
        → Ends fuel value values
    falling-Ends zero value values p q h = absurd (omega arith)
    falling-Ends (suc zero) value values p q h = absurd (omega arith)
    falling-Ends (suc (suc fuel)) value values p q h = elim (Bool-cases (leb value last)) [
      | inl on ↦
          let le : value ≤ last = ground arith in
          goes_on (suc fuel) value values le (elim (Bool-cases (ltb (value + step) (2 ^ 32))) [
            | inl straight ↦
                stops fuel ((value + step) % 2 ^ 32) (insert value values) (ground arith)
            | inr wrapped ↦
                falling-Ends (suc fuel) ((value + step) % 2 ^ 32) (insert value values) p q
                  (ground arith)
          ])
      | inr past ↦ stops (suc fuel) value values (ground arith)
    ]

-- The loop of a field ends: for every u32 step of at least 1, also one that wraps, its test fails
-- within 66 rounds, with the values that `fill` has.
pub fill_enough :
    (step last value : ℕ) (values : List ℕ)
    → 1 ≤ step
    → step < 2 ^ 32
    → last < 64
    → value < 64
    → fill_ended rounds step last value values ≡ some (fill rounds step last value values)
fill_enough step last value values p q small first =
    unfold Ends in
    elim (Bool-cases (leb (step + 64) (2 ^ 32))) [
      | inl rises ↦
          rising-Ends step last small 66 value values p (ground arith) (omega arith) (omega arith)
            (omega arith)
      | inr falls ↦ falling-Ends step last small 66 value values q (ground arith) (omega arith)
    ]

module _ (step last high : ℕ) (le : last ≤ high) where
  -- Whatever the step, no value past the end is added, and the order is kept.
  pub fill_keeps :
      (fuel value : ℕ) (values : List ℕ)
      → All (λ v. v ≤ high) values
      → IsRising values
      → All (λ v. v ≤ high) (fill fuel step last value values)
        × IsRising (fill fuel step last value values)
  fill_keeps zero value values h r = unfold fill in (h, r)
  fill_keeps (suc fuel) value values h r = elim (Bool-cases (leb value last)) [
    | inl on ↦ rw (fill_go step last fuel value values (ground arith)) (
        fill_keeps fuel _ (insert value values)
          (All-insert (λ v. v ≤ high) value values (ground arith) h)
          (insert-IsRising value values r))
    | inr past ↦ rw (fill_stop step last (suc fuel) value values (ground arith)) (h, r)
  ]
