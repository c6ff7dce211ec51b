-- ===== src/Connections/Validate/Needs.antt =====
-- What each type of connection needs.
use stardelt_nova.Prelude.{
  ◌≡◌, refl, ◌⊎◌, inl, inr, Bool-cases, str_eq, eq_iff, String, true, false, List, [], ◌∷◌, arith,
}
use stardelt_nova.Prelude.Results.{ok}
use stardelt_nova.Map.{Map, contains, contains_key}
use stardelt_nova.Connections.Validate.{type_rules}

-- What a connection of each type needs among its settings and its secret fields.
pub data HasNeeds (kind : String) (config : Map String) (fields : List String) : Type 0 where
  database :
      contains ("postgresql" ∷ "mysql" ∷ "sqlserver" ∷ "oracle" ∷ []) kind ≡ true
      → contains_key "host" config ≡ true
      → contains fields "user" ≡ true
      → contains fields "password" ≡ true
      → HasNeeds kind config fields
  rest_api :
      kind ≡ "rest-api"
      → contains_key "baseUrl" config ≡ true
      → (contains fields "token" ≡ true)
        ⊎ ((contains fields "clientId" ≡ true) × (contains fields "clientSecret" ≡ true))
      → HasNeeds kind config fields
  s3 :
      kind ≡ "s3"
      → contains_key "bucket" config ≡ true
      → contains fields "accessKeyId" ≡ true
      → contains fields "secretAccessKey" ≡ true
      → HasNeeds kind config fields
  sftp :
      kind ≡ "sftp"
      → contains_key "host" config ≡ true
      → contains fields "user" ≡ true
      → (contains fields "password" ≡ true) ⊎ (contains fields "privateKey" ≡ true)
      → HasNeeds kind config fields
  kafka :
      kind ≡ "kafka" → contains_key "bootstrapServers" config ≡ true → HasNeeds kind config fields
  other :
      contains
          ("postgresql" ∷ "mysql" ∷ "sqlserver" ∷ "oracle" ∷ "rest-api" ∷ "s3" ∷ "sftp" ∷ "kafka"
            ∷ [])
          kind
        ≡ false
      → HasNeeds kind config fields

no_needs :
    (kind : String)
    → contains ("postgresql" ∷ "mysql" ∷ "sqlserver" ∷ "oracle" ∷ []) kind ≡ false
    → str_eq kind "rest-api" ≡ false
    → str_eq kind "s3" ≡ false
    → str_eq kind "sftp" ≡ false
    → str_eq kind "kafka" ≡ false
    → contains
        ("postgresql" ∷ "mysql" ∷ "sqlserver" ∷ "oracle" ∷ "rest-api" ∷ "s3" ∷ "sftp" ∷ "kafka"
          ∷ [])
        kind
      ≡ false
unfolding contains
no_needs kind no_db no_rest no_s3 no_sftp no_kafka = ground (
  arith,
  eq_iff "rest-api" kind,
  eq_iff kind "rest-api",
  eq_iff "s3" kind,
  eq_iff kind "s3",
  eq_iff "sftp" kind,
  eq_iff kind "sftp",
  eq_iff "kafka" kind,
  eq_iff kind "kafka",
)

of_no_needs :
    (kind : String)
    → contains
        ("postgresql" ∷ "mysql" ∷ "sqlserver" ∷ "oracle" ∷ "rest-api" ∷ "s3" ∷ "sftp" ∷ "kafka"
          ∷ [])
        kind
      ≡ false
    → (contains ("postgresql" ∷ "mysql" ∷ "sqlserver" ∷ "oracle" ∷ []) kind ≡ false)
      × (str_eq kind "rest-api" ≡ false)
      × (str_eq kind "s3" ≡ false)
      × (str_eq kind "sftp" ≡ false)
      × (str_eq kind "kafka" ≡ false)
unfolding contains
of_no_needs kind h = (
  ground arith,
  ground (arith, eq_iff "rest-api" kind, eq_iff kind "rest-api"),
  ground (arith, eq_iff "s3" kind, eq_iff kind "s3"),
  ground (arith, eq_iff "sftp" kind, eq_iff kind "sftp"),
  ground (arith, eq_iff "kafka" kind, eq_iff kind "kafka"),
)

-- None of these types is a database.
no_database :
    (contains ("postgresql" ∷ "mysql" ∷ "sqlserver" ∷ "oracle" ∷ []) "rest-api" ≡ false)
    × (contains ("postgresql" ∷ "mysql" ∷ "sqlserver" ∷ "oracle" ∷ []) "s3" ≡ false)
    × (contains ("postgresql" ∷ "mysql" ∷ "sqlserver" ∷ "oracle" ∷ []) "sftp" ≡ false)
    × (contains ("postgresql" ∷ "mysql" ∷ "sqlserver" ∷ "oracle" ∷ []) "kafka" ≡ false)
unfolding contains
no_database = (refl, refl, refl, refl)

pub type_rules-HasNeeds :
    (kind : String) (config : Map String) (fields : List String)
    → type_rules kind config fields ≡ ok tt
    → HasNeeds kind config fields
unfolding type_rules
type_rules-HasNeeds kind config fields h =
    elim (Bool-cases (contains ("postgresql" ∷ "mysql" ∷ "sqlserver" ∷ "oracle" ∷ []) kind)) [
      | inl db ↦ database db (ground arith) (ground arith) (ground arith)
      | inr no_db ↦ elim (Bool-cases (str_eq kind "rest-api")) [
        | inl k ↦ rest_api ((eq_iff kind "rest-api").0 k) (ground arith) (ground arith)
        | inr no_rest ↦ elim (Bool-cases (str_eq kind "s3")) [
          | inl k ↦ s3 ((eq_iff kind "s3").0 k) (ground arith) (ground arith) (ground arith)
          | inr no_s3 ↦ elim (Bool-cases (str_eq kind "sftp")) [
            | inl k ↦ sftp ((eq_iff kind "sftp").0 k) (ground arith) (ground arith) (ground arith)
            | inr no_sftp ↦ elim (Bool-cases (str_eq kind "kafka")) [
              | inl k ↦ kafka ((eq_iff kind "kafka").0 k) (ground arith)
              | inr no_kafka ↦ other (no_needs kind no_db no_rest no_s3 no_sftp no_kafka)
            ]
          ]
        ]
      ]
    ]

pub of_HasNeeds :
    (kind : String) (config : Map String) (fields : List String)
    → HasNeeds kind config fields
    → type_rules kind config fields ≡ ok tt
unfolding type_rules
of_HasNeeds kind config fields (database db a b c) = ground arith
of_HasNeeds kind config fields (rest_api e a b) = rw (e, no_database.0) (ground arith)
of_HasNeeds kind config fields (s3 e a b c) = rw (e, no_database.1) (ground arith)
of_HasNeeds kind config fields (sftp e a b c) = rw (e, no_database.2) (ground arith)
of_HasNeeds kind config fields (kafka e a) = rw (e, no_database.3) (ground arith)
of_HasNeeds kind config fields (other e) =
    let (db, rest, s, sf, k) = of_no_needs kind e in rw (db, rest, s, sf, k) refl
