-- ===== src/Auth/Sessions/Calls.antt =====
-- The calls of the session store, their answers, and the table that it stands for.
use stardelt_nova.Prelude.{
  ℕ, ◌≤◌, String, ◌≡◌, ◌⊎◌, Option, none, some, List, [], ◌∷◌, if◌then◌else◌, str_eq,
}
use stardelt_nova.Prelude.Results.{Result, ok, err}
use stardelt_nova.Auth.Errors.{AuthError, internal}
use stardelt_nova.Auth.Table.{keep_if}
use stardelt_nova.Auth.Sessions.{
  Credentials, Session, SessionStore, open_session, is_live, insert_session, find_session,
  remove_session, renewed, renew_session,
}

pub data Call : Type 0 where
  sign_in : Option String → ℕ → Credentials → Call
  look : String → Call
  renew : String → Credentials → Call
  sign_out : String → Call

pub data Answer : Type 0 where
  signed_in : Result AuthError String → Answer
  found : Option Session → Answer
  done : Answer

-- A call at a time.
abbrev pub Event : Type 0
Event = ℕ × Call

unfoldable pub step : Event → SessionStore → SessionStore × Answer
unfolding insert_session find_session renew_session remove_session
step (now, sign_in random unix_now creds) store =
    let (after, answer) = insert_session random now unix_now creds store in
    (after, signed_in answer)
step (now, look id) store =
    let (after, session) = find_session now id store in (after, found session)
step (now, renew id creds) store = (renew_session id creds store, done)
step (now, sign_out id) store = (remove_session id store, done)

unfoldable pub answers : List Event → SessionStore → List Answer
unfolding step
answers [] store = []
answers (e ∷ es) store = let (after, answer) = step e store in answer ∷ answers es after

-- The abstract table.
abbrev pub Sessions : Type 0
Sessions = String → Option Session

abbrev pub with_entry : Sessions → String → Option Session → Sessions
with_entry f id entry other = if str_eq id other then entry else f other

abbrev pub with_renewed : Sessions → String → Credentials → Sessions
with_renewed f id creds other = if str_eq id other then renewed creds (f other) else f other

abbrev pub next : Event → Answer → Sessions → Sessions
next (now, sign_in random unix_now creds) (signed_in (ok id)) f =
    with_entry f id (some (open_session now unix_now creds))
next (now, sign_in random unix_now creds) (signed_in (err e)) f = f
next (now, sign_in random unix_now creds) (found session) f = f
next (now, sign_in random unix_now creds) done f = f
next (now, look id) answer f = f
next (now, renew id creds) answer f = with_renewed f id creds
next (now, sign_out id) answer f = with_entry f id none

-- The answers that the table allows: a sign-in gets the identifier that was drawn for it, unless
-- there was no randomness or no room, and a session is found exactly until its deadline.
abbrev pub Allows : Event → Answer → Sessions → Type 0
Allows (now, sign_in none unix_now creds) (signed_in r) f = r ≡ err (internal "no randomness")
Allows (now, sign_in (some id) unix_now creds) (signed_in r) f =
    (r ≡ ok id) ⊎ (r ≡ err (internal "too many sessions"))
Allows (now, look id) (found session) f = session ≡ keep_if (is_live now) (f id)
Allows (now, renew id creds) done f = Unit
Allows (now, sign_out id) done f = Unit
Allows _ _ _ = ⊥

abbrev pub Follows : List Event → List Answer → Sessions → Type 0
Follows [] [] f = Unit
Follows (e ∷ es) (a ∷ later) f = Allows e a f × Follows es later (next e a f)
Follows [] (a ∷ later) f = ⊥
Follows (e ∷ es) [] f = ⊥

-- The clock never goes back.
abbrev pub IsOrdered : ℕ → List Event → Type 0
IsOrdered t [] = Unit
IsOrdered t ((now, call) ∷ es) = (t ≤ now) × IsOrdered now es
