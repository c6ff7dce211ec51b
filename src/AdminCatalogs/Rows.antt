-- ===== src/AdminCatalogs/Rows.antt =====
-- From the JSON of a `Catalog` to a row: `row_from_object` of backend/src/admin_catalogs.rs, with
-- the layer of backend/src/catalog.rs.
use stardelt_nova.Prelude.{
  ℕ, ◌^◌, code, String, Bool, false, Option, none, some, ◌>>=◌, ◌or_else◌, unwrap_or, List, [], ◌∷◌,
  leb, ◌==◌, if◌then◌else◌, str_eq,
}
use stardelt_nova.Prelude.Int.{ℤ, pos, ◌-ℤ◌}
use stardelt_nova.Text.{is_empty, trim, parse_digits, parse_unsigned, eq_ignore_case}
use stardelt_nova.Values.{ValueApi}
use stardelt_nova.AdminCatalogs.Types.{CatalogGrant, CatalogCondition, AdminCatalog}

-- What the code calls of a `serde_json::Number`: its text and `as_i64`, where a value is one.
pub record NumberApi (V : Type 0) : Type 0 where
  pub number_text : V → Option String
  pub as_i64 : V → Option ℤ

abbrev pub layers : List String
layers = "bronze" ∷ "silver" ∷ "gold" ∷ []

first_where : (String → Bool) → List String → Option String
first_where p [] = none
first_where p (x ∷ xs) = if p x then some x else first_where p xs

unfoldable pub layer_value : String → Option String
unfolding first_where
layer_value value = first_where (λ layer. eq_ignore_case layer (trim value)) layers

unfoldable pub layer_from_name : String → Option String
unfolding first_where
layer_from_name name = first_where (λ layer. str_eq layer name) layers

-- The number behind a minus sign, and its negation when that is an `i64`.
negated : Option ℕ → Option ℤ
negated none = none
negated (some n) = if leb n (2 ^ 63) then some (pos 0 -ℤ pos n) else none

abbrev positive : Option ℕ → Option ℤ
positive none = none
positive (some n) = some (pos n)

abbrev digits_of : String → Option ℕ
digits_of s = if is_empty s then none else parse_digits 0 s

-- `s.parse::<i64>()`.
unfoldable pub parse_i64 : String → Option ℤ
unfolding negated parse_unsigned parse_digits
parse_i64 String.[] = none
parse_i64 (String.◌∷◌ c s) =
    if code c == b'-' then negated (digits_of s) else positive (parse_unsigned 63 (String.◌∷◌ c s))

module _ {V : Type 0} (api : ValueApi V) (numbers : NumberApi V) where
  abbrev unless_empty : String → Option String
  unless_empty s = if is_empty s then none else some s

  -- `text`, of a value that is present.
  unfoldable pub text_of : V → Option String
  text_of value = elim (api.as_str value) [
    | some s ↦ unless_empty s
    | none ↦ numbers.number_text value
  ]

  unfoldable pub text : Option V → Option String
  unfolding text_of
  text value = value >>= text_of

  unfoldable pub integer : Option V → Option ℤ
  unfolding parse_i64
  integer value =
      value >>= λ v. elim (api.as_str v) [ some s ↦ parse_i64 s | none ↦ numbers.as_i64 v ]

  abbrev some_grant : Option String → Option String → Option CatalogGrant
  some_grant group verb = group >>= λ g. verb >>= λ v. some (record { group = g; verb = v })

  unfoldable pub grant_rows : List V → List CatalogGrant
  unfolding text
  grant_rows [] = []
  grant_rows (v ∷ vs) = elim (some_grant (text (api.get v "group")) (text (api.get v "verb"))) [
    | none ↦ grant_rows vs
    | some grant ↦ grant ∷ grant_rows vs
  ]

  abbrev listed : V → String → List V
  listed value key = unwrap_or [] (api.get value key >>= api.as_array)

  unfoldable pub grants_of : V → List CatalogGrant
  unfolding grant_rows
  grants_of spec = grant_rows (listed spec "grants")

  abbrev some_condition :
      Option String → Option String → Option String → Option String → Option CatalogCondition
  some_condition kind status reason message = kind >>= λ k.
      status >>= λ s. some (record { kind = k; status = s; reason = reason; message = message })

  unfoldable pub condition_rows : List V → List CatalogCondition
  unfolding text
  condition_rows [] = []
  condition_rows (v ∷ vs) =
      elim (some_condition (text (api.get v "type")) (text (api.get v "status"))
        (text (api.get v "reason")) (text (api.get v "message"))) [
          | none ↦ condition_rows vs
          | some condition ↦ condition ∷ condition_rows vs
        ]

  unfoldable pub conditions_of : V → List CatalogCondition
  unfolding condition_rows
  conditions_of status = condition_rows (listed status "conditions")

  unfoldable pub layer_of_object : V → Option String
  unfolding layer_value layer_from_name
  layer_of_object object =
      let metadata = api.get object "metadata" in
      let label =
        metadata
        >>= (λ m. api.get m "labels")
        >>= (λ l. api.get l "stardelt.io/layer")
        >>= api.as_str in
      let name = metadata >>= (λ m. api.get m "name") >>= api.as_str in
      (label >>= layer_value) or_else (name >>= layer_from_name)

  -- A `status` that is null has no members, like an absent one.
  unfoldable pub row_from_object : V → AdminCatalog
  unfolding text integer grants_of conditions_of layer_of_object
  row_from_object object =
      let spec = unwrap_or api.null (api.get object "spec") in
      let status = unwrap_or api.null (api.get object "status") in
      let metadata = unwrap_or api.null (api.get object "metadata") in
      record {
        name = unwrap_or "" (text (api.get metadata "name"));
        layer = layer_of_object object;
        display_name = text (api.get spec "displayName");
        description = text (api.get spec "description");
        owner = text (api.get spec "owner");
        managed_access = unwrap_or false (api.get spec "managedAccess" >>= api.as_bool);
        key_prefix = text (api.get spec "storage" >>= λ s. api.get s "keyPrefix");
        phase = unwrap_or "Unknown" (text (api.get status "phase") >>= unless_empty);
        warehouse_id = text (api.get status "warehouseId");
        generation = integer (api.get metadata "generation");
        observed_generation = integer (api.get status "observedGeneration");
        resource_version = text (api.get metadata "resourceVersion");
        grants = grants_of spec;
        conditions = conditions_of status;
      }
