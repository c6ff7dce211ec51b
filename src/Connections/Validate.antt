-- ===== src/Connections/Validate.antt =====
-- `validate_new` and the rules it calls, in the order of the source.
pub mod Interval
pub mod Needs
pub mod Laws
mod Tests
use stardelt_nova.Prelude.{
  ℕ, ◌+◌, ◌*◌, code, String, Bool, true, false, not, ◌&&◌, ◌||◌, Option, none, some, List, [], ◌∷◌,
  map, leb, ◌==◌, if◌then◌else◌, str_eq, length, any, all, is_some,
}
use stardelt_nova.Prelude.Results.{Result, ok, err, ◌>>=◌, ◌>>◌, guard, each}
use stardelt_nova.Text.{
  byte_len, is_digit, all_chars, is_empty, ◌&◌, join, strip_prefix, strip_suffix, parse_unsigned,
  to_lower,
}
use stardelt_nova.Map.{Map, keys, contains, contains_key}
use stardelt_nova.Names.{valid_connection_name, key_ok, setting_name_ok, group_ok}
use stardelt_nova.Connections.Types.{
  Scope, personal, group, managed, NewConnection, max_value_bytes, max_keys, max_settings,
  max_setting_bytes, types, secret_words,
}

-- `lower.contains(word)`, where `word` is in lower case: at each character, whether the text
-- begins with the word once in lower case.
begins_lower : String → String → Bool
unfolding to_lower
begins_lower String.[] s = true
begins_lower (String.◌∷◌ k w) String.[] = false
begins_lower (String.◌∷◌ k w) (String.◌∷◌ c s) = code k == to_lower (code c) && begins_lower w s

contains_lower : String → String → Bool
unfolding begins_lower
contains_lower w String.[] = is_empty w
contains_lower w (String.◌∷◌ c s) = begins_lower w (String.◌∷◌ c s) || contains_lower w s

unfoldable pub secret_like : String → Bool
unfolding contains_lower
secret_like name = any (λ w. contains_lower w name) secret_words

-- `digits` and the unit's minutes: at most four digits, and 1 to 1440 minutes in all.
unfoldable pub interval_ok : String → ℕ → Bool
unfolding all_chars is_digit parse_unsigned
interval_ok digits minutes_per_unit =
    not (is_empty digits)
    && leb (byte_len digits) 4
    && all_chars is_digit digits
    && elim (parse_unsigned 32 digits) [
      | none ↦ false
      | some n ↦ leb 1 (n * minutes_per_unit) && leb (n * minutes_per_unit) 1440
    ]

unfoldable pub refresh_ok : String → Bool
unfolding interval_ok strip_suffix
refresh_ok s = elim (strip_suffix b'm' s) [
  | some digits ↦ interval_ok digits 1
  | none ↦ elim (strip_suffix b'h' s) [ some digits ↦ interval_ok digits 60 | none ↦ false ]
]

abbrev no_groups : List String → Bool
no_groups [] = true
no_groups (g ∷ gs) = false

abbrev holds : Option String → (String → Bool) → Bool
holds none p = false
holds (some s) p = p s

-- The `match req.scope` of `validate_new`.
unfoldable pub scope_rules : Scope → Option String → List String → Result String (Unit {0})
scope_rules personal owner_group usable_by =
    guard (not (is_some owner_group || not (no_groups usable_by)))
      "a personal connection has no ownerGroup and no usableBy"
scope_rules group owner_group usable_by =
    guard (holds owner_group (λ g. group_ok g && no_groups usable_by))
      "a group connection needs a valid ownerGroup and no usableBy"
scope_rules managed owner_group usable_by =
    guard
      (not (
        is_some owner_group
        || no_groups usable_by
        || not (leb (length usable_by) 20)
        || not (all group_ok usable_by)))
      "a managed connection needs usableBy (valid group names) and no ownerGroup"

unfoldable pub check_setting : String × String → Result String (Unit {0})
check_setting (k, v) = do
  guard (setting_name_ok k) ("setting name `" & k & "` is not allowed")
  guard (not (secret_like k))
      ("setting `" & k & "` looks like a secret: settings go in config, secrets in secret")
  guard (leb (byte_len v) max_setting_bytes) ("setting `" & k & "` is longer than 512 bytes")

unfoldable pub check_secret : String × String → Result String (Unit {0})
check_secret (k, v) = do
  guard (key_ok k) (
      "secret field name `" & k
      & "` must be letters, digits and underscore, starting with a letter")
  guard (not (is_empty v)) ("secret field `" & k & "` is empty")
  guard (leb (byte_len v) max_value_bytes) ("secret field `" & k & "` is longer than 4096 bytes")

-- What each type needs.
unfoldable pub type_rules : String → Map String → List String → Result String (Unit {0})
type_rules kind config fields =
    let has_c = λ (k : String). contains_key k config in
    let has_k = λ (k : String). contains fields k in
    if contains ("postgresql" ∷ "mysql" ∷ "sqlserver" ∷ "oracle" ∷ []) kind
    then guard (has_c "host" && has_k "user" && has_k "password")
        "a database connection needs the setting host and the secret fields user and password"
    else if str_eq kind "rest-api"
    then guard (has_c "baseUrl" && (has_k "token" || (has_k "clientId" && has_k "clientSecret")))
        "a rest-api connection needs the setting baseUrl and the secret field token, or clientId and clientSecret"
    else if str_eq kind "s3"
    then guard (has_c "bucket" && has_k "accessKeyId" && has_k "secretAccessKey")
        "an s3 connection needs the setting bucket and the secret fields accessKeyId and secretAccessKey"
    else if str_eq kind "sftp"
    then guard (has_c "host" && has_k "user" && (has_k "password" || has_k "privateKey"))
        "an sftp connection needs the setting host and the secret fields user and password or privateKey"
    else if str_eq kind "kafka"
    then guard (has_c "bootstrapServers") "a kafka connection needs the setting bootstrapServers"
    else ok tt

abbrev pub refresh_rule : Option String → Bool
refresh_rule none = true
refresh_rule (some r) = refresh_ok r

-- The first problem of a request, as a sentence for the caller.
unfoldable pub validate_new : NewConnection → Result String (Unit {0})
validate_new req = do
  guard (valid_connection_name req.name)
      "name must be 1 to 40 lower-case letters, digits and dashes, starting with a letter"
  guard (contains types req.kind) ("type must be one of " & join types ", ")
  scope_rules req.scope req.owner_group req.usable_by
  guard (leb (length req.config) max_settings) "at most 32 settings"
  each check_setting req.config
  guard (leb 1 (length req.secret) && leb (length req.secret) max_keys)
      "secret needs 1 to 16 fields"
  each check_secret req.secret
  guard (refresh_rule req.refresh_interval)
      "refreshInterval must be between 1m and 24h, for example 15m"
  type_rules req.kind req.config (keys req.secret)
