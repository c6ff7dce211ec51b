-- ===== src/Auth/Sessions/Refines.antt =====
-- The session store keeps the promise of a table in which nothing is ever swept and each session
-- is seen until its deadline.
use stardelt_nova.Prelude.{
  ℕ, ◌≤◌, refl, ◌∙◌, inl, inr, none, some, List, [], ◌∷◌, leb, length, Bool-cases,
}
use stardelt_nova.Map.{get}
use stardelt_nova.Auth.Table.{retain}
use stardelt_nova.Auth.Sessions.{SessionStore, max_sessions, open_session, is_live}
use stardelt_nova.Auth.Sessions.Calls.{
  Call, sign_in, look, renew, sign_out, Event, step, answers, Sessions, next, Allows, Follows,
  IsOrdered,
}
use stardelt_nova.Auth.Sessions.Entries.{
  Kept, found_session, Kept-later, Kept-retain, Kept-look, Kept-renew, Kept-remove, Kept-put,
}

step-keeps :
    (t now : ℕ) (call : Call) (store : SessionStore) (f : Sessions)
    → t ≤ now
    → Kept t store f
    → Allows (now, call) (step (now, call) store).1 f
      × Kept now (step (now, call) store).0 (next (now, call) (step (now, call) store).1 f)
unfolding step
step-keeps t now (sign_in none unix_now creds) store f h kept =
    (refl, Kept-later t now store f h kept)
step-keeps t now (sign_in (some id) unix_now creds) store f h kept =
    let swept = Kept-retain t now store f h kept in
    elim (Bool-cases (leb max_sessions (length (retain (is_live now) store)))) [
      | inl full ↦ rw full (inr refl, swept)
      | inr room ↦ rw room (inl refl, Kept-put now id (open_session now unix_now creds) _ f swept)
    ]
step-keeps t now (look id) store f h kept =
    (found_session now id store ∙ kept.1 id now h, Kept-look t now store f h id kept)
step-keeps t now (renew id creds) store f h kept = (tt, Kept-renew t now store f h id creds kept)
step-keeps t now (sign_out id) store f h kept = (tt, Kept-remove t now store f h id kept)

runs :
    (t : ℕ) (events : List Event) (store : SessionStore) (f : Sessions)
    → IsOrdered t events
    → Kept t store f
    → Follows events (answers events store) f
unfolding answers
runs t [] store f order kept = tt
runs t ((now, call) ∷ events) store f (h, order) kept =
    let (allowed, after) = step-keeps t now call store f h kept in
    (allowed, runs now events _ _ order after)

-- Over any run of sign-ins, looks, renewals and sign-outs at times that never go back, from the
-- empty store, each answer is one that a table without sweeping allows: a sign-in gets the
-- identifier drawn for it or is refused for want of randomness or room, and a look finds the
-- session with its latest credentials exactly until its deadline, which no renewal moves.
pub answers-Follows :
    (events : List Event) → IsOrdered 0 events → Follows events (answers events []) (λ id. none)
unfolding get
answers-Follows events order = runs 0 events [] (λ id. none) order (tt, λ id now h. refl)
