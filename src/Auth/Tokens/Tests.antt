-- ===== src/Auth/Tokens/Tests.antt =====
-- A token store of two tokens: an ID token and an access token, signed with the key "k1".
use stardelt_nova.Prelude.{
  String, ◌≡◌, refl, true, false, Option, none, some, List, [], ◌∷◌, if◌then◌else◌, str_eq,
}
use stardelt_nova.Prelude.Results.{Result, ok, err}
use stardelt_nova.Auth.Errors.{invalid_token, unknown_key}
use stardelt_nova.Auth.Sample.{Json, text, object, json}
use stardelt_nova.Auth.Tokens.{
  Header, JwtErrorKind, invalid_signature, Validation, JwtApi, Expect, verify_jwt,
}
use stardelt_nova.Auth.Tokens.Laws.{IsAccepted, verify_jwt-IsAccepted}

abbrev pub header_of : String → Option Header
header_of token =
    if str_eq token "plain"
    then some (record { alg = "none"; kid = none })
    else if str_eq token "stray"
    then some (record { alg = "RS256"; kid = some "k9" })
    else some (record { alg = "RS256"; kid = some "k1" })

abbrev pub id_claims : Json
id_claims = object (("typ", text "ID") ∷ ("nonce", text "n-1") ∷ ("azp", text "nova") ∷ [])

abbrev pub decoded : String → String → Validation → Result JwtErrorKind Json
decoded token key rules =
    if str_eq token "id"
    then ok id_claims
    else if str_eq token "access"
    then ok (object [])
    else err invalid_signature

-- A key stands by its identifier.
abbrev pub tokens : JwtApi Json String String
tokens = record {
  decode_header = header_of;
  is_encryption = λ key. str_eq key "enc";
  key_id = λ key. some key;
  key_algorithm = λ key. some "RS256";
  from_jwk = λ key. some key;
  decode = decoded;
}

abbrev keys : List String
keys = "enc" ∷ "k1" ∷ []

abbrev pub id_expected : Expect
id_expected = record {
  issuer = "https://idp";
  audiences = "nova" ∷ [];
  client_id = "nova";
  id_token = true;
  nonce = some "n-1";
}

abbrev access_expected : Expect
access_expected = record {
  issuer = "https://idp";
  audiences = "nova" ∷ [];
  client_id = "nova";
  id_token = false;
  nonce = none;
}

id_accepted : verify_jwt tokens json "id" keys id_expected ≡ ok id_claims
unfolding verify_jwt json stardelt_nova.Map.contains
id_accepted = refl

id_is_no_credential :
    verify_jwt tokens json "id" keys access_expected
    ≡ err (invalid_token "ID token used as access token")
unfolding verify_jwt json stardelt_nova.Map.contains
id_is_no_credential = refl

no_algorithm :
    verify_jwt tokens json "plain" keys access_expected
    ≡ err (invalid_token "algorithm not allowed")
unfolding verify_jwt json stardelt_nova.Map.contains
no_algorithm = refl

stray_key : verify_jwt tokens json "stray" keys access_expected ≡ err unknown_key
unfolding verify_jwt json stardelt_nova.Map.contains
stray_key = refl

verify_jwt-IsAccepted_example : IsAccepted tokens json "id" keys id_expected id_claims
verify_jwt-IsAccepted_example =
    verify_jwt-IsAccepted tokens json "id" keys id_expected id_claims id_accepted
