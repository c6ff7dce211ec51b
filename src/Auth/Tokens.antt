-- ===== src/Auth/Tokens.antt =====
-- The checks on a token: `select_key` and `verify_jwt` of backend/src/auth.rs. The package
-- `jsonwebtoken`, which decodes a token and tests its signature, is a parameter.
pub mod Laws
pub mod Tests
use stardelt_nova.Prelude.{
  ℕ, String, Bool, true, false, not, ◌&&◌, Option, none, some, ◌>>=◌ as ◌and_then◌, is_some_and,
  List, [], ◌∷◌, ltb, length, if◌then◌else◌, str_eq,
}
use stardelt_nova.Prelude.Results.{Result, ok, err, ◌>>=◌, ◌>>◌, guard, map_err}
use stardelt_nova.Map.{contains}
use stardelt_nova.Values.{ValueApi}
use stardelt_nova.Auth.Errors.{AuthError, invalid_token, unknown_key}
use stardelt_nova.Auth.Claims.{is_some_of}

-- `jsonwebtoken::Header`, as far as it is read. An algorithm stands by its name, as `Debug` prints
-- it.
pub record Header : Type 0 where
  pub alg : String
  pub kid : Option String

-- `jsonwebtoken::errors::ErrorKind`: the kinds that the code names, and the others.
pub data JwtErrorKind : Type 0 where
  expired_signature : JwtErrorKind
  immature_signature : JwtErrorKind
  invalid_issuer : JwtErrorKind
  invalid_audience : JwtErrorKind
  invalid_signature : JwtErrorKind
  invalid_algorithm : JwtErrorKind
  invalid_algorithm_name : JwtErrorKind
  missing_required_claim : String → JwtErrorKind
  other_kind : JwtErrorKind

-- `jsonwebtoken::Validation`, the fields that the code sets.
pub record Validation : Type 0 where
  pub algorithms : List String
  pub issuers : List String
  pub audiences : List String
  pub required_claims : List String
  pub leeway : ℕ
  pub validate_nbf : Bool

-- What the code calls: `decode_header`, the fields of a `Jwk`, `DecodingKey::from_jwk`, `decode`.
pub record JwtApi (V Jwk DecodingKey : Type 0) : Type 0 where
  pub decode_header : String → Option Header
  pub is_encryption : Jwk → Bool
  pub key_id : Jwk → Option String
  pub key_algorithm : Jwk → Option String
  pub from_jwk : Jwk → Option DecodingKey
  pub decode : String → DecodingKey → Validation → Result JwtErrorKind V

pub record Expect : Type 0 where
  pub issuer : String
  pub audiences : List String
  pub client_id : String
  pub id_token : Bool
  pub nonce : Option String

abbrev pub clock_leeway_secs : ℕ
clock_leeway_secs = 60

abbrev pub allowed_algs : List String
allowed_algs =
    "RS256" ∷ "RS384" ∷ "RS512" ∷ "PS256" ∷ "PS384" ∷ "PS512" ∷ "ES256" ∷ "ES384" ∷ "EdDSA" ∷ []

unfoldable pub jwt_reason : JwtErrorKind → String
jwt_reason expired_signature = "expired"
jwt_reason immature_signature = "not yet valid"
jwt_reason invalid_issuer = "wrong issuer"
jwt_reason invalid_audience = "wrong audience"
jwt_reason invalid_signature = "bad signature"
jwt_reason invalid_algorithm = "algorithm not allowed"
jwt_reason invalid_algorithm_name = "algorithm not allowed"
jwt_reason (missing_required_claim _) = "missing required claim"
jwt_reason other_kind = "malformed"

-- `ok_or` and its kin.
abbrev pub ok_or {ℓ} : {A : Type ℓ} → Option A → AuthError → Result AuthError A
ok_or none e = err e
ok_or (some a) e = ok a

-- The only key of a list.
abbrev pub only {ℓ} : {A : Type ℓ} → List A → Option A
only [] = none
only (k ∷ []) = some k
only (k ∷ l ∷ ks) = none

-- The rules of OpenID Connect on the claims, as the code orders them: the texts of `nonce`, `azp`
-- and `typ`, and whether there are several audiences.
abbrev pub nonce_ok : Option String → Option String → Bool
nonce_ok none claimed = true
nonce_ok (some nonce) claimed = is_some_of claimed nonce

unfoldable pub party_rule : String → Bool → Option String → Result AuthError (Unit {0})
party_rule client_id multi_aud (some azp) =
    guard (str_eq azp client_id) (invalid_token "wrong authorized party")
party_rule client_id multi_aud none = guard (not multi_aud) (invalid_token "missing azp")

abbrev pub validation : String → Expect → Validation
validation alg expect = record {
  algorithms = alg ∷ [];
  issuers = expect.issuer ∷ [];
  audiences = expect.audiences;
  required_claims = "exp" ∷ "iss" ∷ "aud" ∷ "sub" ∷ [];
  leeway = clock_leeway_secs;
  validate_nbf = true;
}

abbrev pub algorithm_fits : String → Option String → Bool
algorithm_fits alg none = true
algorithm_fits alg (some key_alg) = str_eq key_alg alg

module _ {V : Type 0} (api : ValueApi V) where
  -- `claims.get(key).and_then(Value::as_str)`.
  unfoldable pub claimed : V → String → Option String
  claimed claims key = api.get claims key and_then api.as_str

  unfoldable pub multi_aud : V → Bool
  multi_aud claims =
      is_some_and (api.get claims "aud" and_then api.as_array) (λ a. ltb 1 (length a))

  -- The tests behind `decode`.
  unfoldable pub check_claims : V → Expect → Result AuthError (Unit {0})
  unfolding claimed multi_aud party_rule is_some_of
  check_claims claims expect =
      if expect.id_token
      then (guard (nonce_ok expect.nonce (claimed claims "nonce")) (invalid_token "nonce mismatch")
          >> party_rule expect.client_id (multi_aud claims) (claimed claims "azp"))
      else guard (not (is_some_of (claimed claims "typ") "ID"))
          (invalid_token "ID token used as access token")

module _ {V Jwk DecodingKey : Type 0} (jwt : JwtApi V Jwk DecodingKey) where
  -- `keys.iter().filter(signing)`.
  unfoldable pub signing : List Jwk → List Jwk
  signing [] = []
  signing (k ∷ ks) = if jwt.is_encryption k then signing ks else k ∷ signing ks

  unfoldable pub find_key : String → List Jwk → Option Jwk
  find_key kid [] = none
  find_key kid (k ∷ ks) = if is_some_of (jwt.key_id k) kid then some k else find_key kid ks

  unfoldable pub select_key : List Jwk → Option String → Result AuthError Jwk
  unfolding signing find_key
  select_key keys (some kid) = ok_or (find_key kid (signing keys)) unknown_key
  select_key keys none = ok_or (only (signing keys)) unknown_key

  module _ (api : ValueApi V) where
    unfoldable pub verify_jwt : String → List Jwk → Expect → Result AuthError V
    unfolding select_key check_claims jwt_reason
    verify_jwt token keys expect = do
      header ← ok_or (jwt.decode_header token) (invalid_token "malformed")
      guard (contains allowed_algs header.alg) (invalid_token "algorithm not allowed")
      jwk ← select_key keys header.kid
      guard (algorithm_fits header.alg (jwt.key_algorithm jwk))
          (invalid_token "algorithm does not match key")
      key ← ok_or (jwt.from_jwk jwk) (invalid_token "unusable key")
      claims ←
          map_err (λ kind. invalid_token (jwt_reason kind))
            (jwt.decode token key (validation header.alg expect))
      check_claims api claims expect
      ok claims
