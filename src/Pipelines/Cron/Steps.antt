-- ===== src/Pipelines/Cron/Steps.antt =====
-- Which values the loop adds.
use stardelt_nova.Prelude.{
  ℕ, zero, suc, ◌+◌, ◌-◌, ◌*◌, ◌%◌, ◌^◌, ◌≤◌, ◌<◌, ◌≡◌, ◌↔◌, ◌⊎◌, inl, inr, true, List, leb, ◌==◌,
  arith, Bool-cases,
}
use stardelt_nova.NumberSet.{insert, contains, contains-insert}
use stardelt_nova.Pipelines.Cron.{fill, rounds}
use stardelt_nova.Pipelines.Cron.Loop.{fill_stop, fill_go}

-- `v` is reached from `first` in whole steps, and not past `last`.
abbrev pub IsReached : ℕ → ℕ → ℕ → ℕ → Type 0
IsReached step last first v = (n : ℕ) × (v ≡ first + n * step) × (v ≤ last)

module _ (step last : ℕ) where
  later_step :
      (first v : ℕ)
      → first ≤ last
      → IsReached step last (first + step) v
      → IsReached step last first v
  later_step first v h (n, e, le) = (suc n, grind arith, le)

  first_or_later :
      (first v : ℕ)
      → IsReached step last first v
      → (v ≡ first) ⊎ IsReached step last (first + step) v
  first_or_later first v (zero, e, le) = inl (omega arith)
  first_or_later first v (suc n, e, le) = inr (n, grind arith, le)

  contains-fill :
      (fuel first v : ℕ) (values : List ℕ)
      → last < 64
      → step + 64 ≤ 2 ^ 32
      → last + 1 < fuel + first
      → 1 ≤ step
      → (contains (fill fuel step last first values) v ≡ true)
        ↔ ((contains values v ≡ true) ⊎ IsReached step last first v)
  contains-fill zero first v values small p h pos =
      rw (fill_stop step last zero first values (omega arith))
        ((λ c. inl c), λ c. elim c [ inl k ↦ k | inr (n, e, le) ↦ absurd (grind arith) ])
  contains-fill (suc fuel) first v values small p h pos = elim (Bool-cases (leb first last)) [
    | inr past ↦
        let over : last < first = ground arith in
        rw (fill_stop step last (suc fuel) first values over)
          ((λ c. inl c), λ c. elim c [ inl k ↦ k | inr (n, e, le) ↦ absurd (grind arith) ])
    | inl on ↦
        let le : first ≤ last = ground arith in
        let next : (first + step) % 2 ^ 32 ≡ first + step = ground arith in
        let (to, from) =
          contains-fill fuel (first + step) v (insert first values) small p (omega arith) pos in
        rw (fill_go step last fuel first values le, next)
          ((λ c. forth first v values le (to c)), λ c. from (back first v values c))
  ]
    where
      forth :
          (first v : ℕ) (values : List ℕ)
          → first ≤ last
          → (contains (insert first values) v ≡ true) ⊎ IsReached step last (first + step) v
          → (contains values v ≡ true) ⊎ IsReached step last first v
      forth first v values le (inl c) = elim (Bool-cases (first == v)) [
        | inl same ↦ inr (0, ground arith, ground arith)
        | inr differs ↦ inl (ground (arith, contains-insert first v values))
      ]
      forth first v values le (inr r) = inr (later_step first v le r)

      back :
          (first v : ℕ) (values : List ℕ)
          → (contains values v ≡ true) ⊎ IsReached step last first v
          → (contains (insert first values) v ≡ true) ⊎ IsReached step last (first + step) v
      back first v values (inl c) = inl (ground (arith, contains-insert first v values))
      back first v values (inr r) = elim (first_or_later first v r) [
        | inl e ↦ inl (ground (arith, contains-insert first v values))
        | inr later ↦ inr later
      ]

-- With a step of at most 2 ^ 32 - 64 the loop adds exactly the values that are whole steps from
-- the first and not past the last, and drops none.
pub contains-fill_iff :
    (step last first v : ℕ) (values : List ℕ)
    → last < 64
    → 1 ≤ step
    → step + 64 ≤ 2 ^ 32
    → (contains (fill rounds step last first values) v ≡ true)
      ↔ ((contains values v ≡ true) ⊎ IsReached step last first v)
contains-fill_iff step last first v values small pos p =
    contains-fill step last 66 first v values small p (omega arith) pos

kept :
    (step last fuel value v : ℕ) (values : List ℕ)
    → contains values v ≡ true
    → contains (fill fuel step last value values) v ≡ true
unfolding fill
kept step last zero value v values h = h
kept step last (suc fuel) value v values h = elim (Bool-cases (leb value last)) [
  | inl on ↦ rw on (
      kept step last fuel _ v (insert value values)
        (ground (arith, contains-insert value v values)))
  | inr past ↦ rw past h
]

-- A step that lacks `d` to 2 ^ 32 makes the sum wrap: the loop goes down instead of up, and adds
-- a value below the first one.
pub contains-fill_wrapped :
    (last first d : ℕ) (values : List ℕ)
    → first ≤ last
    → last < 64
    → 1 ≤ d
    → d ≤ first
    → contains (fill rounds (2 ^ 32 - d) last first values) (first - d) ≡ true
contains-fill_wrapped last first d values le small p q =
    let down : (first + (2 ^ 32 - d)) % 2 ^ 32 ≡ first - d = omega arith in
    rw
      (
        fill_go (2 ^ 32 - d) last 65 first values le,
        down,
        fill_go (2 ^ 32 - d) last 64 (first - d) (insert first values) (omega arith),
      )
      (kept (2 ^ 32 - d) last 64 _ (first - d) _
        (ground (arith, contains-insert (first - d) (first - d) (insert first values))))
