-- ===== src/Pipelines/Cron/Gaps.antt =====
-- What `fires_too_often` refuses.
use stardelt_nova.Prelude.{
  ℕ, ◌+◌, ◌*◌, ◌≤◌, ◌<◌, ◌≡◌, refl, ◌↔◌, false, List, [], ◌∷◌, arith, All, length,
}
use stardelt_nova.Pipelines.Cron.{fires_too_often, close_pair, last_of}

-- `a` and the later minute `b` are five minutes apart, also from `b` to `a` in the next hour.
abbrev pub IsApart : ℕ → ℕ → Type 0
IsApart a b = (a + 5 ≤ b) × (b + 5 ≤ a + 60)

-- Any two minutes of an hour are five minutes apart around the clock.
abbrev pub IsSpaced : List ℕ → Type 0
IsSpaced [] = Unit
IsSpaced (a ∷ more) = All (IsApart a) more × IsSpaced more

-- Every later minute is at least `low` and the last one at most `high`.
within :
    (low high a : ℕ) (more : List ℕ)
    → close_pair (a ∷ more) ≡ false
    → low ≤ a
    → last_of a more ≤ high
    → All (λ b. (low ≤ b) × (b ≤ high)) (a ∷ more)
unfolding close_pair last_of
within low high a [] c p q = ((p, q), tt)
within low high a (b ∷ more) c p q =
    let rest = within low high b more (ground arith) (ground arith) q in
    ((p, ground (arith, rest.0)), rest)

IsApart-of_within :
    (a : ℕ) (ms : List ℕ) → All (λ b. (a + 5 ≤ b) × (b ≤ a + 55)) ms → All (IsApart a) ms
IsApart-of_within a [] _ = tt
IsApart-of_within a (b ∷ ms) (h, hs) = ((h.0, omega arith), IsApart-of_within a ms hs)

spaced :
    (a : ℕ) (more : List ℕ)
    → close_pair (a ∷ more) ≡ false
    → last_of a more ≤ a + 55
    → IsSpaced (a ∷ more)
unfolding close_pair last_of
spaced a [] c h = (tt, tt)
spaced a (b ∷ more) c h =
    let near : a + 5 ≤ b = ground arith in
    let rest : close_pair (b ∷ more) ≡ false = ground arith in
    (
      IsApart-of_within a (b ∷ more) (within (a + 5) (a + 55) b more rest near h),
      spaced b more rest (omega arith),
    )

close_of_spaced : (a : ℕ) (more : List ℕ) → IsSpaced (a ∷ more) → close_pair (a ∷ more) ≡ false
unfolding close_pair
close_of_spaced a [] _ = refl
close_of_spaced a (b ∷ more) (h, hs) = ground (arith, close_of_spaced b more hs, h.0.0)

last-IsApart : (a b : ℕ) (more : List ℕ) → All (IsApart a) (b ∷ more) → IsApart a (last_of b more)
unfolding last_of
last-IsApart a b [] h = h.0
last-IsApart a b (c ∷ more) h = last-IsApart a c more h.1

last-lt : (a b : ℕ) (more : List ℕ) → All (λ m. m < 60) (b ∷ more) → last_of b more < 60
unfolding last_of
last-lt a b [] h = h.0
last-lt a b (c ∷ more) h = last-lt a c more h.1

-- Each minute of a spaced list is at least five after the one before.
length_spaced : (a : ℕ) (more : List ℕ) → IsSpaced (a ∷ more) → 5 * length more + a ≤ last_of a more
unfolding last_of
length_spaced a [] _ = omega arith
length_spaced a (b ∷ more) (h, hs) = omega (arith, length_spaced b more hs, h.0.0)

-- The minutes of an hour are accepted exactly when any two of them are at least five minutes
-- apart, counted forwards and around the full hour; more than twelve never are.
pub fires_too_often_iff :
    (minutes : List ℕ)
    → All (λ m. m < 60) minutes
    → (fires_too_often minutes ≡ false) ↔ IsSpaced minutes
unfolding fires_too_often
fires_too_often_iff [] _ = (λ _. tt, λ _. refl)
fires_too_often_iff (a ∷ []) _ = (λ _. (tt, tt), λ _. refl)
fires_too_often_iff (a ∷ b ∷ more) h = (
  λ e. spaced a (b ∷ more) (ground arith) (unfold last_of in ground (arith, last-lt a b more h.1)),
  λ s. ground (
    arith,
    close_of_spaced a (b ∷ more) s,
    last-IsApart a b more s.0,
    last-lt a b more h.1,
    length_spaced b more s.1,
  ),
)
