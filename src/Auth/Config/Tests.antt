-- ===== src/Auth/Config/Tests.antt =====
-- A configuration, and a discovery document. An address stands for itself, with a scheme and a
-- host that are read off its text.
use stardelt_nova.Prelude.{
  String, ◌≡◌, refl, ◌↔◌, ◌⊎◌, Option, none, some, [], ◌∷◌, if◌then◌else◌, str_eq,
}
use stardelt_nova.Prelude.Results.{Result, ok, err}
use stardelt_nova.Auth.Config.{
  UrlApi, OidcConfig, dev, oidc, var, from_lookup, Discovery, audiences_of, claims_of,
  validate_discovery,
}
use stardelt_nova.Auth.Config.Laws.{IsConfigured, from_lookup_dev_iff, from_lookup-IsConfigured}

abbrev read : String → Result String String
read s = if str_eq s "" then err "empty" else ok s

abbrev urls : UrlApi String
urls = record {
  parse = read;
  scheme = λ u. if str_eq u "http://idp" then "http" else "https";
  host_str = λ u. some "idp";
  path = λ u. "/";
  query = λ u. none;
  fragment = λ u. none;
  origin = λ u. u;
}

abbrev env : String → Option String
env k =
    if str_eq k "NOVA_AUTH_MODE"
    then some "oidc"
    else if str_eq k "NOVA_OIDC_ISSUER"
    then some " https://idp"
    else if str_eq k "NOVA_OIDC_CLIENT_ID"
    then some "nova"
    else if str_eq k "NOVA_OIDC_CLIENT_SECRET"
    then some "s"
    else if str_eq k "NOVA_SESSION_SECRET"
    then some "0123456789abcdef0123456789abcdef"
    else if str_eq k "NOVA_PUBLIC_URL"
    then some "https://nova"
    else if str_eq k "NOVA_OIDC_ADMIN_GROUP"
    then some ""
    else none

abbrev cfg : OidcConfig
cfg = record {
  issuer = "https://idp";
  client_id = "nova";
  client_secret = "s";
  scopes = "openid profile email";
  audiences = "nova" ∷ [];
  public_url = "https://nova";
  claims = record { group_claim = "groups"; admin_group = none; admin_role = none };
  session_secret = "0123456789abcdef0123456789abcdef";
  device_client_id = none;
}

starts : from_lookup urls env ≡ ok (oidc cfg)
unfolding from_lookup stardelt_nova.Text.trim stardelt_nova.Text.byte_len
    stardelt_nova.Text.split_space audiences_of claims_of
starts = refl

nothing_set : from_lookup urls (λ k. none) ≡ ok dev
unfolding from_lookup
nothing_set = refl

from_lookup_dev_iff_example :
    (from_lookup urls (λ k. none) ≡ ok dev)
    ↔ ((var (λ k. none) "NOVA_AUTH_MODE" ≡ none) ⊎ (var (λ k. none) "NOVA_AUTH_MODE" ≡ some "dev"))
from_lookup_dev_iff_example = from_lookup_dev_iff urls (λ k. none)

from_lookup-IsConfigured_example :
    (var env "NOVA_AUTH_MODE" ≡ some "oidc") × IsConfigured urls env cfg
from_lookup-IsConfigured_example = from_lookup-IsConfigured urls env cfg starts

abbrev document : Discovery
document = record {
  issuer = "https://idp/";
  authorization_endpoint = "https://idp/auth";
  token_endpoint = "https://idp/token";
  jwks_uri = "https://idp/keys";
  end_session_endpoint = none;
  auth_methods = none;
}

accepted : validate_discovery urls document "https://idp" ≡ ok tt
unfolding validate_discovery
accepted = refl
