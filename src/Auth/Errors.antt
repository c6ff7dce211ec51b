-- ===== src/Auth/Errors.antt =====
-- `AuthError` of backend/src/auth.rs, its messages, and the answer it becomes.
use stardelt_nova.Prelude.{ℕ, String, Option, none, some, List, [], ◌∷◌}
use stardelt_nova.Text.{◌&◌}

pub data AuthError : Type 0 where
  unauthenticated : AuthError
  invalid_token : String → AuthError
  unknown_key : AuthError
  provider_unavailable : String → AuthError
  misconfigured : String → AuthError
  internal : String → AuthError
  forbidden : AuthError

-- `to_string`.
unfoldable pub auth_message : AuthError → String
auth_message unauthenticated = "not signed in"
auth_message (invalid_token why) = "invalid token: " & why
auth_message unknown_key = "token signed by an unknown key"
auth_message (provider_unavailable why) = "identity provider unavailable: " & why
auth_message (misconfigured why) = "identity provider misconfigured: " & why
auth_message (internal why) = "internal error: " & why
auth_message forbidden = "this view is for platform administrators"

-- A response: its status, the value of `WWW-Authenticate` if it has one, and the members of its
-- JSON body.
pub record AuthAnswer : Type 0 where
  pub status : ℕ
  pub challenge : Option String
  pub body : List (String × String)

sign_in_first : String → String → AuthAnswer
sign_in_first how msg = record {
  status = 401;
  challenge = some how;
  body = ("error", "unauthenticated") ∷ ("detail", msg) ∷ ("login", "/api/auth/login") ∷ [];
}

refused : String → AuthAnswer
refused msg = record {
  status = 403;
  challenge = none;
  body =
      ("error", "forbidden")
      ∷ ("detail", msg)
      ∷ ("hint", "membership is decided by the identity provider's admin group")
      ∷ [];
}

failed : ℕ → String → AuthAnswer
failed code msg = record { status = code; challenge = none; body = ("error", msg) ∷ [] }

-- `into_response`.
unfoldable pub auth_response : AuthError → AuthAnswer
unfolding auth_message sign_in_first refused failed
auth_response unauthenticated = sign_in_first "Bearer" (auth_message unauthenticated)
auth_response (invalid_token why) =
    sign_in_first "Bearer error=\"invalid_token\"" (auth_message (invalid_token why))
auth_response unknown_key =
    sign_in_first "Bearer error=\"invalid_token\"" (auth_message unknown_key)
auth_response forbidden = refused (auth_message forbidden)
auth_response (provider_unavailable why) = failed 503 (auth_message (provider_unavailable why))
auth_response (misconfigured why) = failed 503 (auth_message (misconfigured why))
auth_response (internal why) = failed 500 (auth_message (internal why))
