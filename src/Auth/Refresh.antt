-- ===== src/Auth/Refresh.antt =====
-- The request of a signed-in browser, which renews the session's token first when that is due:
-- `session_credentials` and `refresh_session` of backend/src/auth.rs. The session's lock is held
-- over the calls of the identity provider, so a request is one step of its session; what the
-- provider answers is a parameter.
pub mod Renewal
pub mod Laws
mod Tests
use stardelt_nova.Prelude.{
  ℕ, ◌+◌, ◌-◌, ◌*◌, code, String, Bool, true, false, Option, none, some, ◌or_else◌, List, [], ◌∷◌,
  ◌>>=◌ as ◌and_then◌, if◌then◌else◌,
}
use stardelt_nova.Prelude.Results.{Result, ok, err, ◌>>=◌, map_err}
use stardelt_nova.Text.{◌&◌, trim, split_on, parse_unsigned}
use stardelt_nova.Values.{ValueApi}
use stardelt_nova.Identity.{Identity}
use stardelt_nova.Auth.Errors.{AuthError, unauthenticated, auth_message}
use stardelt_nova.Auth.Claims.{ClaimConfig, identity_from_claims}
use stardelt_nova.Auth.Sessions.{
  second, TokenSet, Credentials, Session, SessionStore, needs_refresh, find_session, remove_session,
  renew_session,
}

abbrev pub default_access_ttl : ℕ
default_access_ttl = 300 * second

pub record TokenResponse (V : Type 0) : Type 0 where
  pub access_token : String
  pub id_token : Option String
  pub refresh_token : Option String
  pub expires_in : Option V

-- The number of a `Value::Number` that is not a `u64`, cut to one; what the second part of a token
-- decodes to; and the time of day that `jsonwebtoken` reads.
pub record TokenReader (V : Type 0) : Type 0 where
  pub as_f64_secs : V → Option ℕ
  pub decode_payload : String → Option V
  pub unix_now : ℕ

-- What the identity provider answers: to a refresh token, and on the verification of an ID token
-- and of an access token.
pub record IdentityProvider (V : Type 0) : Type 0 where
  pub discovery : Result AuthError (Unit {0})
  pub refresh : String → Result String (TokenResponse V)
  pub verify_id_token : String → Result AuthError V
  pub verify : String → Result AuthError V

module _ {V : Type 0} where
  -- `TokenSet::from_response`.
  unfoldable pub from_response : TokenResponse V → Option TokenSet → TokenSet
  from_response response previous = record {
    access_token = response.access_token;
    id_token = response.id_token or_else (previous and_then λ p. p.id_token);
    refresh_token = response.refresh_token or_else (previous and_then λ p. p.refresh_token);
  }

-- What the request may know: the person, the access token, and when the session ends.
abbrev pub Seen : Type 0
Seen = Identity × Option String × Option ℕ

abbrev pub seen_of : Session → Credentials → Seen
seen_of session creds = (creds.identity, some creds.tokens.access_token, some session.expires_unix)

-- The end of a renewal: a failure signs the session out.
abbrev pub renew_or_drop :
    String
    → Session
    → SessionStore
    → Result String Credentials
    → SessionStore × Result AuthError Seen
renew_or_drop id session store (err reason) = (remove_session id store, err unauthenticated)
renew_or_drop id session store (ok creds) =
    (renew_session id creds store, ok (seen_of session creds))

second_of : List String → Option String
second_of [] = none
second_of (a ∷ []) = none
second_of (a ∷ b ∷ rest) = some b

module _ {V : Type 0} (api : ValueApi V) (reader : TokenReader V) where
  unfoldable pub expires_in_secs : Option V → Option ℕ
  expires_in_secs none = none
  expires_in_secs (some value) =
      api.as_u64 value
      or_else reader.as_f64_secs value
      or_else (api.as_str value and_then λ s. parse_unsigned 64 (trim s))

  unfoldable pub access_token_exp : String → Option ℕ
  unfolding second_of
  access_token_exp token =
      second_of (split_on b'.' token)
      and_then reader.decode_payload
      and_then (λ claims. api.get claims "exp")
      and_then api.as_u64
      and_then (λ exp. some (exp - reader.unix_now))

  abbrev from_secs : Option ℕ → ℕ
  from_secs none = default_access_ttl
  from_secs (some seconds) = seconds * second

  unfoldable pub access_token_lifetime : TokenResponse V → ℕ
  unfolding expires_in_secs access_token_exp
  access_token_lifetime response =
      from_secs (expires_in_secs response.expires_in or_else access_token_exp response.access_token)

  -- An instant has no end here; `Instant::now() + lifetime` panics at the end of the clock.
  abbrev pub refreshed : ℕ → TokenSet → TokenResponse V → Identity → Credentials
  refreshed now previous answer identity = record {
    identity = identity;
    tokens = from_response answer (some previous);
    expires_at = now + access_token_lifetime answer;
    lifetime = access_token_lifetime answer;
  }

  module _ (idp : IdentityProvider V) (cfg : ClaimConfig) where
    unfoldable pub identity_of_refresh : TokenResponse V → Result String Identity
    identity_of_refresh answer = do
      claims ← elim answer.id_token [
        | some id_token ↦
            map_err (λ e. "refreshed ID token rejected: " & auth_message e)
              (idp.verify_id_token id_token)
        | none ↦
            map_err (λ e. "refreshed access token rejected: " & auth_message e)
              (idp.verify answer.access_token)
      ]
      map_err auth_message (identity_from_claims api claims cfg)

    -- `now` is the time behind the calls.
    unfoldable pub refresh_session : ℕ → Credentials → Result String Credentials
    unfolding identity_of_refresh
    refresh_session now creds = elim creds.tokens.refresh_token [
      | none ↦ err "the session holds no refresh token"
      | some refresh_token ↦ map_err auth_message idp.discovery >>= λ _.
          idp.refresh refresh_token >>= λ answer.
          identity_of_refresh answer >>= λ identity. ok (refreshed now creds.tokens answer identity)
    ]

    -- The request behind the look for its session.
    unfoldable pub serve :
        ℕ → ℕ → String → SessionStore → Option Session → SessionStore × Result AuthError Seen
    unfolding refresh_session
    serve now later id store none = (store, err unauthenticated)
    serve now later id store (some s) =
        let renewal = renew_or_drop id s store (refresh_session later s.credentials) in
        if needs_refresh now s.credentials then renewal else (store, ok (seen_of s s.credentials))

    unfoldable pub session_credentials :
        ℕ → ℕ → String → SessionStore → SessionStore × Result AuthError Seen
    unfolding find_session serve
    session_credentials now later id store =
        let (swept, session) = find_session now id store in serve now later id swept session
