-- ===== src/Auth/Sessions/Tests.antt =====
-- A sign-in, a look before and after the deadline, and a state that is used twice.
use stardelt_nova.Prelude.{
  ◌+◌, ◌*◌, ◌≤◌, ◌≡◌, refl, false, none, some, List, [], ◌∷◌, length, arith,
}
use stardelt_nova.Prelude.Results.{ok, err}
use stardelt_nova.Identity.{Identity}
use stardelt_nova.Auth.Errors.{internal}
use stardelt_nova.Auth.Sessions.{
  second, session_ttl, login_ttl, max_sessions, Credentials, open_session, PendingLogin,
  insert_pending, take_pending,
}
use stardelt_nova.Auth.Sessions.Calls.{
  sign_in, look, Answer, signed_in, found, Event, answers, Follows,
}
use stardelt_nova.Auth.Sessions.Refines.{answers-Follows}
use stardelt_nova.Auth.Sessions.Bounds.{states, length-states}
use stardelt_nova.Auth.Sessions.Pending.{
  begin, after_logins, take_pending-once, take-insert_pending,
}

abbrev pub bob : Identity
bob = record {
  sub = "bob";
  display_name = "bob";
  email = none;
  name = none;
  groups = [];
  roles = [];
  groups_overage = false;
  is_admin = false;
}

abbrev pub creds : Credentials
creds = record {
  identity = bob;
  tokens = record { access_token = "a"; id_token = none; refresh_token = some "r" };
  expires_at = 300 * second;
  lifetime = 300 * second;
}

abbrev events : List Event
events =
    (0, sign_in (some "s1") 1700 creds)
    ∷ (1, sign_in none 1700 creds)
    ∷ (second, look "s1")
    ∷ (session_ttl, look "s1")
    ∷ []

abbrev seen : List Answer
seen =
    signed_in (ok "s1")
    ∷ signed_in (err (internal "no randomness"))
    ∷ found (some (open_session 0 1700 creds))
    ∷ found none
    ∷ []

run : answers events [] ≡ seen
unfolding answers stardelt_nova.Map.get
run = refl

answers-Follows_example : Follows events (answers events []) (λ id. none)
answers-Follows_example =
    answers-Follows events (omega arith, (omega arith, (omega arith, (omega arith, tt))))

length-states_example : length (states events []) ≤ max_sessions
length-states_example = length-states events [] (omega arith)

abbrev p : PendingLogin
p = record { verifier = "v"; nonce = "n"; return_to = "/"; created = 5 }

begun : (insert_pending 5 "st" p []).1 ≡ ok tt
unfolding insert_pending
begun = refl

take-insert_pending_example :
    (take_pending (5 + login_ttl) "st" (insert_pending 5 "st" p []).0).1 ≡ none
take-insert_pending_example = take-insert_pending "st" 5 (5 + login_ttl) p [] begun

take_pending-once_example :
    (take_pending 9 "st"
      (after_logins ((7, begin "other" p) ∷ []) (take_pending 6 "st" (("st", p) ∷ [])).0)).1
    ≡ none
unfolding stardelt_nova.Map.get
take_pending-once_example =
    take_pending-once "st" 6 9 ((7, begin "other" p) ∷ []) (("st", p) ∷ [])
      ((refl, tt), omega arith) (refl, tt)
