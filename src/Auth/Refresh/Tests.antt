-- ===== src/Auth/Refresh/Tests.antt =====
-- A session that is due for renewal, which the provider grants or refuses.
use stardelt_nova.Prelude.{
  ℕ, ◌*◌, ◌<◌, String, ◌≡◌, refl, none, some, [], ◌∷◌, if◌then◌else◌, str_eq,
}
use stardelt_nova.Prelude.Results.{Result, ok, err}
use stardelt_nova.Map.{get}
use stardelt_nova.Auth.Errors.{unauthenticated}
use stardelt_nova.Auth.Claims.{ClaimConfig, identity_from_claims}
use stardelt_nova.Auth.Sample.{Json, text, object, json}
use stardelt_nova.Auth.Sessions.{second, Session, SessionStore, open_session, needs_refresh}
use stardelt_nova.Auth.Sessions.Tests.{bob, creds}
use stardelt_nova.Auth.Refresh.{
  TokenResponse, TokenReader, IdentityProvider, Seen, from_response, session_credentials,
}
use stardelt_nova.Auth.Refresh.Laws.{
  Serves, session_credentials-IsServed, session_credentials-refused,
}

abbrev settings : ClaimConfig
settings = record {
  group_claim = "groups";
  admin_group = some "stardelt-admins";
  admin_role = none;
}

abbrev reader : TokenReader Json
reader = record { as_f64_secs = λ v. some 60; decode_payload = λ s. none; unix_now = 1700 }

abbrev answer : String → Result String (TokenResponse Json)
answer token =
    if str_eq token "r"
    then ok (record {
      access_token = "b";
      id_token = none;
      refresh_token = none;
      expires_in = some (object []);
    })
    else err "the token endpoint returned 400 invalid_grant"

abbrev idp : IdentityProvider Json
idp = record {
  discovery = ok tt;
  refresh = answer;
  verify_id_token = λ token. ok (object []);
  verify = λ token. ok (object (("sub", text "bob") ∷ []));
}

abbrev spent : Session
spent = open_session 0 1700 (record {
  identity = bob;
  tokens = record { access_token = "a"; id_token = none; refresh_token = some "spent" };
  expires_at = 300 * second;
  lifetime = 300 * second;
})

abbrev store : SessionStore
store = ("s1", open_session 0 1700 creds) ∷ ("s2", spent) ∷ []

abbrev now : ℕ
now = 250 * second

abbrev seen : Seen
seen = (bob, some "b", some (30_500))

served : (session_credentials json reader idp settings now now "s1" store).1 ≡ ok seen
unfolding session_credentials json stardelt_nova.Text.trim get needs_refresh identity_from_claims
    from_response
served = refl

session_credentials-IsServed_example :
    (session : Session) × (get "s1" store ≡ some session)
    × (now < session.expires)
    × Serves json reader idp settings now now "s1" session
        (session_credentials json reader idp settings now now "s1" store).0
        seen
session_credentials-IsServed_example =
    session_credentials-IsServed json reader idp settings now now "s1" store seen served

refused : (session_credentials json reader idp settings now now "s2" store).1 ≡ err unauthenticated
unfolding session_credentials json get needs_refresh
refused = refl

session_credentials-refused_example :
    (unauthenticated ≡ unauthenticated)
    × (get "s2" (session_credentials json reader idp settings now now "s2" store).0 ≡ none)
session_credentials-refused_example =
    session_credentials-refused json reader idp settings now now "s2" store unauthenticated refused
