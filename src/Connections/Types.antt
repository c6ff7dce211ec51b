-- ===== src/Connections/Types.antt =====
-- The data of backend/src/connections.rs, and the scopes and metadata of
-- backend/src/secret_store.rs.
use stardelt_nova.Prelude.{ℕ, String, Bool, Option, List, [], ◌∷◌}
use stardelt_nova.Map.{Map}

pub data Scope : Type 0 where
  personal group managed : Scope

pub record NewConnection : Type 0 where
  pub name : String
  pub kind : String
  pub scope : Scope
  pub owner_group : Option String
  pub usable_by : List String
  pub config : Map String
  pub secret : Map String
  pub refresh_interval : Option String

pub data Action : Type 0 where
  create rotate delete : Action

-- `StoreScope`: whose connection a path belongs to.
pub data StoreScope : Type 0 where
  of_person : String → StoreScope
  of_group : String → StoreScope
  of_administrators : StoreScope

-- `SecretMeta`: what the store knows about a secret besides its fields.
pub record SecretMeta : Type 0 where
  pub version : ℕ
  pub created_time : Option String
  pub updated_time : Option String
  pub custom_metadata : Map String

pub record SyncView : Type 0 where
  pub ready : Bool
  pub reason : String
  pub message : Option String

pub record BreakGlassNotice : Type 0 where
  pub by_whom : String
  pub at : String
  pub reason : String

pub record ConnectionView : Type 0 where
  pub name : String
  pub scope : Scope
  pub kind : String
  pub owner_group : Option String
  pub usable_by : List String
  pub config : Map String
  pub secret_keys : List String
  pub last_rotated : Option String
  pub version : ℕ
  pub sync : Option SyncView
  pub break_glass : Option BreakGlassNotice
  pub member : Bool

abbrev pub max_value_bytes : ℕ
max_value_bytes = 4096

abbrev pub max_keys : ℕ
max_keys = 16

abbrev pub max_settings : ℕ
max_settings = 32

abbrev pub max_setting_bytes : ℕ
max_setting_bytes = 512

abbrev pub types : List String
types =
    "postgresql" ∷ "mysql" ∷ "sqlserver" ∷ "oracle" ∷ "rest-api" ∷ "s3" ∷ "kafka" ∷ "sftp"
    ∷ "generic" ∷ []

abbrev pub secret_words : List String
secret_words = "password" ∷ "passwd" ∷ "passphrase" ∷ "secret" ∷ "token" ∷ "credential" ∷ []
