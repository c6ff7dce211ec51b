-- ===== src/Limiter.antt =====
-- The sliding-window rate limits: `take_create_slot` and `take_run_slot` of
-- backend/src/pipelines.rs and `take_access_change_slot` of backend/src/admin_catalogs.rs. The
-- three are one routine with a window and a limit of their own. An `Instant` is a number of
-- milliseconds of the monotonic clock; the mutex makes each call one step.
pub mod Laws
pub mod Windows
mod Tests
use stardelt_nova.Prelude.{
  ℕ, ◌-◌, ◌*◌, String, Bool, true, false, List, [], ◌∷◌, ◌++◌, leb, length, if◌then◌else◌, str_eq,
}

-- `HashMap<String, VecDeque<Instant>>`: a key that is absent has the empty queue, which is what
-- `entry(..).or_default()` makes of it.
abbrev pub Limiter : Type 0
Limiter = String → List ℕ

abbrev pub no_slots : Limiter
no_slots sub = []

-- The `while` loop that pops the front. `duration_since` answers zero for a later instant, as
-- the subtraction does.
unfoldable pub pop_expired : ℕ → ℕ → List ℕ → List ℕ
pop_expired window now [] = []
pop_expired window now (taken ∷ slots) =
    if leb window (now - taken) then pop_expired window now slots else taken ∷ slots

abbrev pub store : Limiter → String → List ℕ → Limiter
store limiter sub slots other = if str_eq sub other then slots else limiter other

unfoldable pub take_slot : ℕ → ℕ → Limiter → ℕ → String → Limiter × Bool
take_slot window limit limiter now sub =
    let slots = pop_expired window now (limiter sub) in
    if leb limit (length slots)
    then (store limiter sub slots, false)
    else (store limiter sub (slots ++ now ∷ []), true)

abbrev pub creates_per_hour : ℕ
creates_per_hour = 10

abbrev pub create_window : ℕ
create_window = 60 * 60 * 1000

abbrev pub run_starts_per_minute : ℕ
run_starts_per_minute = 10

abbrev pub run_window : ℕ
run_window = 60 * 1000

abbrev pub access_change_limit : ℕ
access_change_limit = 30

abbrev pub access_change_window : ℕ
access_change_window = 60 * 60 * 1000

unfoldable pub take_create_slot : Limiter → ℕ → String → Limiter × Bool
take_create_slot = take_slot create_window creates_per_hour

unfoldable pub take_run_slot : Limiter → ℕ → String → Limiter × Bool
take_run_slot = take_slot run_window run_starts_per_minute

unfoldable pub take_access_change_slot : Limiter → ℕ → String → Limiter × Bool
take_access_change_slot = take_slot access_change_window access_change_limit
