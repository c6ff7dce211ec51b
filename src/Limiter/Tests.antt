-- ===== src/Limiter/Tests.antt =====
-- Runs of the limiter on small inputs, and the theorems applied to one.
use stardelt_nova.Prelude.{ℕ, ◌≡◌, refl, ◌≤◌, String, true, List, [], ◌∷◌, arith}
use stardelt_nova.Limiter.{no_slots, take_slot, take_run_slot, pop_expired}
use stardelt_nova.Limiter.Windows.{grants, count_in, count_in-grants}

abbrev calls : List (ℕ × String)
calls = (0, "ann") ∷ (10, "bob") ∷ (20, "ann") ∷ (30, "ann") ∷ (105, "ann") ∷ (110, "ann") ∷ []

-- Two grants in any 100 ticks: the third call of ann is refused, the fourth is granted again.
two_in_hundred : grants 100 2 no_slots calls "ann" ≡ 0 ∷ 20 ∷ 105 ∷ []
unfolding grants take_slot pop_expired
two_in_hundred = refl

first_run : (take_run_slot no_slots 5 "ann").1 ≡ true
unfolding take_run_slot take_slot pop_expired
first_run = refl

count_in-grants_example : count_in 100 15 (grants 100 2 no_slots calls "ann") ≤ 2
count_in-grants_example = count_in-grants 100 2 calls "ann" 15 (omega arith)
