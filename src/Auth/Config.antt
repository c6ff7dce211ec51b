-- ===== src/Auth/Config.antt =====
-- How sign-in is configured, and what Nova accepts as a discovery document: `from_lookup` and
-- `Discovery::validate` of backend/src/auth.rs. The package `url` is a parameter.
pub mod Laws
pub mod Discovered
mod Tests
use stardelt_nova.Prelude.{
  ℕ, code, String, Bool, true, false, not, ◌&&◌, ◌||◌, is_some, is_some_and, Option, none, some,
  unwrap_or, ◌>>=◌ as ◌and_then◌, List, [], ◌∷◌, any, leb, ◌==◌, if◌then◌else◌, str_eq,
}
use stardelt_nova.Prelude.Results.{Result, ok, err, ◌>>=◌, ◌>>◌, guard, each, map_err}
use stardelt_nova.Text.{◌&◌, byte_len, is_empty, trim, split_on, split_space}
use stardelt_nova.Auth.Errors.{AuthError, misconfigured}
use stardelt_nova.Auth.Claims.{ClaimConfig, non_empty}

-- `Url` and its methods; the error of `parse` is its sentence.
pub record UrlApi (U : Type 0) : Type 0 where
  pub parse : String → Result String U
  pub scheme : U → String
  pub host_str : U → Option String
  pub path : U → String
  pub query : U → Option String
  pub fragment : U → Option String
  pub origin : U → String

pub record OidcConfig : Type 0 where
  pub issuer : String
  pub client_id : String
  pub client_secret : String
  pub scopes : String
  pub audiences : List String
  pub public_url : String
  pub claims : ClaimConfig
  pub session_secret : String
  pub device_client_id : Option String

pub data AuthMode : Type 0 where
  dev : AuthMode
  oidc : OidcConfig → AuthMode

abbrev pub min_session_secret_bytes : ℕ
min_session_secret_bytes = 32

abbrev pub is_loopback_host : Option String → Bool
is_loopback_host none = false
is_loopback_host (some h) =
    str_eq h "localhost" || str_eq h "127.0.0.1" || str_eq h "[::1]" || str_eq h "::1"

-- The value of a variable, trimmed, when there is something in it.
unfoldable pub var : (String → Option String) → String → Option String
unfolding non_empty
var get k = get k and_then λ v. non_empty (trim v)

unfoldable pub required : (String → Option String) → String → Result String String
unfolding var
required get k = elim (var get k) [
  | none ↦ err (k & " is required when NOVA_AUTH_MODE=oidc")
  | some v ↦ ok v
]

-- `split(',')`, trimmed, less the empty ones.
unfoldable pub trimmed_parts : List String → List String
unfolding non_empty
trimmed_parts [] = []
trimmed_parts (p ∷ ps) = elim (non_empty (trim p)) [
  | none ↦ trimmed_parts ps
  | some s ↦ s ∷ trimmed_parts ps
]

abbrev pub or_only : List String → String → List String
or_only [] client_id = client_id ∷ []
or_only (a ∷ rest) client_id = a ∷ rest

unfoldable pub audiences_of : Option String → String → List String
unfolding trimmed_parts
audiences_of none client_id = client_id ∷ []
audiences_of (some listed) client_id = or_only (trimmed_parts (split_on b',' listed)) client_id

-- The `match` on a raw value: unset means the default, and empty turns the mechanism off.
unfoldable pub admin_value : Option String → Option String → Option String
unfolding non_empty
admin_value none default = default
admin_value (some v) default = non_empty (trim v)

unfoldable pub claims_of : (String → Option String) → ClaimConfig
unfolding var admin_value
claims_of get =
    let admin_group = admin_value (get "NOVA_OIDC_ADMIN_GROUP") (some "stardelt-admins") in
    record {
      group_claim = unwrap_or "groups" (var get "NOVA_OIDC_GROUP_CLAIM");
      admin_group = admin_group;
      admin_role = admin_value (get "NOVA_OIDC_ADMIN_ROLE") admin_group;
    }

abbrev pub scopes_of : (String → Option String) → String
scopes_of get = unwrap_or "openid profile email" (var get "NOVA_OIDC_SCOPES")

abbrev pub assembled :
    (String → Option String) → String → String → String → String → String → OidcConfig
assembled get issuer client_id client_secret session_secret public_url = record {
  issuer = issuer;
  client_id = client_id;
  client_secret = client_secret;
  scopes = scopes_of get;
  audiences = audiences_of (var get "NOVA_OIDC_AUDIENCES") client_id;
  public_url = public_url;
  claims = claims_of get;
  session_secret = session_secret;
  device_client_id = var get "NOVA_OIDC_DEVICE_CLIENT_ID";
}

module _ {U : Type 0} (urls : UrlApi U) where
  unfoldable pub is_loopback : U → Bool
  is_loopback u = is_loopback_host (urls.host_str u)

  unfoldable pub check_issuer : String → Result String (Unit {0})
  unfolding is_loopback
  check_issuer issuer =
      map_err (λ e. "NOVA_OIDC_ISSUER is not a URL: " & e) (urls.parse issuer) >>= λ u.
      guard (str_eq (urls.scheme u) "https" || (str_eq (urls.scheme u) "http" && is_loopback u))
        "NOVA_OIDC_ISSUER must be https:// (plain http is only accepted for localhost)"

  -- `public_url` as it is kept: its origin.
  unfoldable pub public_origin : String → Result String String
  public_origin public_url = do
    u ← map_err (λ e. "NOVA_PUBLIC_URL is not a URL: " & e) (urls.parse public_url)
    guard
        ((str_eq (urls.scheme u) "http" || str_eq (urls.scheme u) "https")
          && is_some (urls.host_str u))
        "NOVA_PUBLIC_URL must be an http(s) origin, e.g. https://nova.example.com"
    guard
        (str_eq (urls.path u) "/"
          && not (is_some (urls.query u))
          && not (is_some (urls.fragment u)))
        "NOVA_PUBLIC_URL must be an origin without a path, e.g. https://nova.example.com"
    ok (urls.origin u)

  -- The configuration behind the choice of the mode.
  unfoldable pub oidc_of : (String → Option String) → Result String OidcConfig
  unfolding required check_issuer public_origin
  oidc_of get = do
    issuer ← required get "NOVA_OIDC_ISSUER"
    check_issuer issuer
    client_id ← required get "NOVA_OIDC_CLIENT_ID"
    client_secret ← required get "NOVA_OIDC_CLIENT_SECRET"
    session_secret ← required get "NOVA_SESSION_SECRET"
    guard (leb min_session_secret_bytes (byte_len session_secret))
        "NOVA_SESSION_SECRET must be at least 32 bytes (e.g. `openssl rand -base64 48`)"
    public_url ← required get "NOVA_PUBLIC_URL"
    origin ← public_origin public_url
    guard (any (λ s. str_eq s "openid") (split_space (scopes_of get)))
        "NOVA_OIDC_SCOPES must include `openid`"
    ok (assembled get issuer client_id client_secret session_secret origin)

  unfoldable pub from_lookup : (String → Option String) → Result String AuthMode
  unfolding var oidc_of
  from_lookup get = elim (var get "NOVA_AUTH_MODE") [
    | none ↦ ok dev
    | some mode ↦
        let configured = oidc_of get >>= λ config. ok (oidc config) in
        if str_eq mode "dev"
        then ok dev
        else if str_eq mode "oidc"
        then configured
        else err ("NOVA_AUTH_MODE must be `dev` or `oidc`, got `" & mode & "`")
  ]

pub record Discovery : Type 0 where
  pub issuer : String
  pub authorization_endpoint : String
  pub token_endpoint : String
  pub jwks_uri : String
  pub end_session_endpoint : Option String
  pub auth_methods : Option (List String)

-- The field is `token_endpoint_auth_methods_supported`.
unfoldable pub use_secret_post : Discovery → Bool
use_secret_post d = is_some_and d.auth_methods (λ m. any (λ x. str_eq x "client_secret_post") m)

-- `trim_end_matches('/')`.
unfoldable pub trim_slashes : String → String
trim_slashes String.[] = ""
trim_slashes (String.◌∷◌ c s) =
    let rest = trim_slashes s in if is_empty rest && code c == b'/' then "" else String.◌∷◌ c rest

abbrev pub endpoints : Discovery → List (String × String)
endpoints d =
    ("authorization_endpoint", d.authorization_endpoint)
    ∷ ("token_endpoint", d.token_endpoint)
    ∷ ("jwks_uri", d.jwks_uri)
    ∷ []

module _ {U : Type 0} (urls : UrlApi U) where
  abbrev pub holds_of : Result String U → (U → Bool) → Bool
  holds_of (err e) p = false
  holds_of (ok u) p = p u

  unfoldable pub check_endpoint : Bool → String × String → Result AuthError (Unit {0})
  check_endpoint insecure_ok (name, ep) =
      map_err (λ e. misconfigured ("discovery " & name & " is not a URL")) (urls.parse ep) >>= λ u.
      guard (str_eq (urls.scheme u) "https" || (insecure_ok && str_eq (urls.scheme u) "http"))
        (misconfigured ("discovery " & name & " is not https"))

  unfoldable pub validate_discovery : Discovery → String → Result AuthError (Unit {0})
  unfolding trim_slashes check_endpoint is_loopback
  validate_discovery d configured_issuer =
      guard (str_eq (trim_slashes d.issuer) (trim_slashes configured_issuer)) (
        misconfigured (
          "discovery reports issuer `" & d.issuer & "`, but NOVA_OIDC_ISSUER is `"
          & configured_issuer
          & "` (for Entra ID use https://login.microsoftonline.com/<tenant-id>/v2.0)"))
      >> each (check_endpoint (holds_of (urls.parse d.issuer) (is_loopback urls))) (endpoints d)
