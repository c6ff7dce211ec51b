-- ===== src/Auth/Sessions.antt =====
-- The signed-in sessions and the sign-ins under way: `Credentials`, `SessionStore` and
-- `PendingStore` of backend/src/auth.rs. An `Instant` and a `Duration` are numbers of nanoseconds,
-- which is how precise Rust's are, and a wall-clock time is one of seconds. The mutex makes each
-- call one step; a poisoned one is left out.
pub mod Calls
pub mod Entries
pub mod Refines
pub mod Bounds
pub mod Pending
pub mod Tests
use Prim.Native.Nat.{min}
use stardelt_nova.Prelude.{
  ℕ, ◌+◌, ◌-◌, ◌*◌, ◌/◌, String, Bool, true, false, Option, none, some, ◌>>=◌, is_some_and, List,
  [], ◌∷◌, ltb, leb, length, if◌then◌else◌,
}
use stardelt_nova.Prelude.Results.{Result, ok, err}
use stardelt_nova.Map.{Map, get}
use stardelt_nova.Identity.{Identity}
use stardelt_nova.Auth.Errors.{AuthError, provider_unavailable, internal}
use stardelt_nova.Auth.Table.{remove, put, retain, keep_if}

abbrev pub second : ℕ
second = 1_000_000_000

abbrev pub session_ttl_secs : ℕ
session_ttl_secs = 8 * 60 * 60

abbrev pub session_ttl : ℕ
session_ttl = session_ttl_secs * second

abbrev pub login_ttl : ℕ
login_ttl = 10 * 60 * second

abbrev pub max_pending_logins : ℕ
max_pending_logins = 10_000

abbrev pub max_sessions : ℕ
max_sessions = 100_000

abbrev pub refresh_skew : ℕ
refresh_skew = 60 * second

pub record TokenSet : Type 0 where
  pub access_token : String
  pub id_token : Option String
  pub refresh_token : Option String

pub record Credentials : Type 0 where
  pub identity : Identity
  pub tokens : TokenSet
  pub expires_at : ℕ
  pub lifetime : ℕ

-- `Credentials::new`, at the time `now`.
unfoldable pub new_credentials : ℕ → Identity → TokenSet → ℕ → Credentials
new_credentials now identity tokens lifetime = record {
  identity = identity;
  tokens = tokens;
  expires_at = now + lifetime;
  lifetime = lifetime;
}

unfoldable pub refresh_window : Credentials → ℕ
refresh_window creds =
    if ltb (creds.lifetime / 2) refresh_skew then creds.lifetime / 2 else refresh_skew

unfoldable pub needs_refresh : ℕ → Credentials → Bool
unfolding refresh_window
needs_refresh now creds = leb (creds.expires_at - now) (refresh_window creds)

pub record Session : Type 0 where
  pub expires : ℕ
  pub expires_unix : ℕ
  pub credentials : Credentials

abbrev pub SessionStore : Type 0
SessionStore = Map Session

abbrev pub open_session : ℕ → ℕ → Credentials → Session
open_session now unix_now credentials = record {
  expires = now + session_ttl;
  expires_unix = unix_now + session_ttl_secs;
  credentials = credentials;
}

abbrev pub is_live : ℕ → Session → Bool
is_live now session = ltb now session.expires

-- `SessionStore::insert`. `random` is the answer of `random_token`, and `unix_now` the time of
-- day.
unfoldable pub insert_session :
    Option String → ℕ → ℕ → Credentials → SessionStore → SessionStore × Result AuthError String
unfolding retain put
insert_session none now unix_now credentials store = (store, err (internal "no randomness"))
insert_session (some id) now unix_now credentials store =
    let kept = retain (is_live now) store in
    if leb max_sessions (length kept)
    then (kept, err (internal "too many sessions"))
    else (put id (open_session now unix_now credentials) kept, ok id)

-- `SessionStore::find`.
unfoldable pub find_session : ℕ → String → SessionStore → SessionStore × Option Session
unfolding get remove
find_session now id store =
    let swept =
      if is_some_and (get id store) (λ s. leb s.expires now) then remove id store else store in
    (swept, get id swept)

-- `SessionStore::remove`.
unfoldable pub remove_session : String → SessionStore → SessionStore
unfolding remove
remove_session id store = remove id store

-- What a refresh writes through the shared session: its credentials, and nothing else of it.
abbrev pub with_credentials : Credentials → Session → Session
with_credentials credentials s = record {
  expires = s.expires;
  expires_unix = s.expires_unix;
  credentials = credentials;
}

unfoldable pub renewed : Credentials → Option Session → Option Session
renewed credentials none = none
renewed credentials (some s) = some (with_credentials credentials s)

unfoldable pub renew_session : String → Credentials → SessionStore → SessionStore
unfolding get put renewed
renew_session id credentials store = elim (renewed credentials (get id store)) [
  | none ↦ store
  | some session ↦ put id session store
]

pub record PendingLogin : Type 0 where
  pub verifier : String
  pub nonce : String
  pub return_to : String
  pub created : ℕ

abbrev pub PendingStore : Type 0
PendingStore = Map PendingLogin

abbrev pub is_recent : ℕ → PendingLogin → Bool
is_recent now p = ltb (now - p.created) login_ttl

-- `PendingStore::insert`.
unfoldable pub insert_pending :
    ℕ → String → PendingLogin → PendingStore → PendingStore × Result AuthError (Unit {0})
unfolding retain put
insert_pending now state p store =
    let kept = retain (is_recent now) store in
    if leb max_pending_logins (length kept)
    then (kept, err (provider_unavailable "too many sign-ins in flight"))
    else (put state p kept, ok tt)

-- `PendingStore::take`.
unfoldable pub take_pending : ℕ → String → PendingStore → PendingStore × Option PendingLogin
unfolding get remove
take_pending now state store = (remove state store, keep_if (is_recent now) (get state store))
