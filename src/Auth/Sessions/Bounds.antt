-- ===== src/Auth/Sessions/Bounds.antt =====
-- How many sessions and sign-ins there are, how long they last, and when a token is renewed.
use stardelt_nova.Prelude.{
  ℕ, ◌*◌, ◌≤◌, ◌<◌, String, ◌≡◌, is_some_and, none, some, List, [], ◌∷◌, leb, str_eq, length, arith,
  Bool-cases, Option-cases, inl, inr,
}
use stardelt_nova.Prelude.Results.{err}
use stardelt_nova.Map.{get}
use stardelt_nova.Auth.Errors.{AuthError}
use stardelt_nova.Auth.Table.{remove, put, retain, length-remove, length-retain}
use stardelt_nova.Auth.Sessions.{
  Credentials, Session, SessionStore, max_sessions, refresh_skew, is_live, insert_session,
  find_session, remove_session, renew_session, renewed, refresh_window,
}
use stardelt_nova.Auth.Sessions.Calls.{sign_in, look, renew, sign_out, Event, step}

unfoldable pub states : List Event → SessionStore → SessionStore
unfolding step
states [] store = store
states (e ∷ es) store = states es (step e store).0

-- A renewal replaces an entry that is there.
length-remove_present :
    (id : String) (s : Session) (store : SessionStore)
    → get id store ≡ some s
    → length (remove id store) < length store
unfolding get remove
length-remove_present id s [] h = cc
length-remove_present id s ((j, t) ∷ store) h = elim (Bool-cases (str_eq j id)) [
  | inl same ↦ rw same (omega (arith, length-remove id store))
  | inr other ↦
      rw other (omega (arith, length-remove_present id s store (ground (arith, h, other))))
]

length-renew_session :
    (id : String) (creds : Credentials) (store : SessionStore)
    → length (renew_session id creds store) ≤ length store
unfolding renew_session renewed put
length-renew_session id creds store = elim (Option-cases (get id store)) [
  | inl absent ↦ rw (renew_session, absent) (omega arith)
  | inr (s, e) ↦ rw (renew_session, e) (omega (arith, length-remove_present id s store e))
]

length-step :
    (e : Event) (store : SessionStore)
    → length store ≤ max_sessions
    → length (step e store).0 ≤ max_sessions
unfolding step insert_session find_session remove_session put
length-step (now, sign_in none unix_now creds) store h = h
length-step (now, sign_in (some id) unix_now creds) store h =
    let kept = retain (is_live now) store in
    elim (Bool-cases (leb max_sessions (length kept))) [
      | inl full ↦ rw full (omega (arith, h, length-retain (is_live now) store))
      | inr room ↦ rw room (ground (arith, room, length-remove id kept))
    ]
length-step (now, look id) store h =
    elim (Bool-cases (is_some_and (get id store) (λ s. leb s.expires now))) [
      | inl over ↦ rw over (omega (arith, h, length-remove id store))
      | inr live ↦ rw live h
    ]
length-step (now, renew id creds) store h = omega (arith, h, length-renew_session id creds store)
length-step (now, sign_out id) store h = omega (arith, h, length-remove id store)

-- From a store of at most 100000 sessions, no run of sign-ins, looks, renewals and sign-outs makes
-- it hold more.
pub length-states :
    (events : List Event) (store : SessionStore)
    → length store ≤ max_sessions
    → length (states events store) ≤ max_sessions
unfolding states
length-states [] store h = h
length-states (e ∷ es) store h = length-states es (step e store).0 (length-step e store h)

-- A sign-in is refused for lack of room only when that many sessions are live.
pub insert_session-room :
    (id : String) (now unix_now : ℕ) (creds : Credentials) (store : SessionStore) (e : AuthError)
    → (insert_session (some id) now unix_now creds store).1 ≡ err e
    → max_sessions ≤ length (retain (is_live now) store)
unfolding insert_session
insert_session-room id now unix_now creds store e h = ground arith

pub refresh_window_bounds :
    (creds : Credentials)
    → (refresh_window creds ≤ refresh_skew) × (2 * refresh_window creds ≤ creds.lifetime)
unfolding refresh_window
refresh_window_bounds creds = ground arith
