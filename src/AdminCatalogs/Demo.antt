-- ===== src/AdminCatalogs/Demo.antt =====
-- The line of the audit and the change in the demo: `audit_change`, `demo_update` and
-- `next_resource_version` of backend/src/admin_catalogs.rs, and what a change may touch.
use stardelt_nova.Prelude.{
  ℕ, suc, ◌%◌, ◌^◌, String, false, not, Option, none, some, unwrap_or, List, [], ◌∷◌, ◌++◌,
  if◌then◌else◌, str_eq,
}
use stardelt_nova.Prelude.Int.{pos, ◌+ℤ◌}
use stardelt_nova.Prelude.Results.{Result, ok, err}
use stardelt_nova.Text.{parse_unsigned}
use stardelt_nova.Text.Numbers.{to_string}
use stardelt_nova.Identity.{Identity}
use stardelt_nova.Limiter.{Limiter, take_access_change_slot}
use stardelt_nova.Pipelines.Answers.{Fail}
use stardelt_nova.AdminCatalogs.Types.{
  CatalogGrant, CatalogCondition, AdminCatalog, CatalogAccessUpdate, no_such_catalog,
  catalog_changed, too_many_changes,
}
use stardelt_nova.AdminCatalogs.Pairs.{Pair, pairs_of, difference, common}

-- The line of `catalog_access_changed`, with the pairs that its texts list.
pub record AccessChange : Type 0 where
  pub catalog : String
  pub owner_before : String
  pub owner_after : String
  pub added : List Pair
  pub removed : List Pair
  pub unchanged : ℕ
  pub actor : String
  pub sub : String

unfoldable pub audit_change :
    Identity
    → String
    → Option String
    → String
    → List CatalogGrant
    → List CatalogGrant
    → AccessChange
unfolding pairs_of difference common
audit_change who catalog owner_before owner_after before after = record {
  catalog = catalog;
  owner_before = unwrap_or "" owner_before;
  owner_after = owner_after;
  added = difference (pairs_of after) (pairs_of before);
  removed = difference (pairs_of before) (pairs_of after);
  unchanged = common (pairs_of before) (pairs_of after);
  actor = who.display_name;
  sub = who.sub;
}

-- What a change may touch: the limiter, the catalog of the demo, the patches that were sent, and
-- the audit.
pub record Desk : Type 0 where
  pub limiter : Limiter
  pub demo_catalog : Option AdminCatalog
  pub patches : List (String × CatalogAccessUpdate)
  pub audit : List AccessChange

abbrev pub Answer : Type 0
Answer = Result Fail AdminCatalog

-- `u64` wraps, as in a release build.
unfoldable pub next_resource_version : String → String
unfolding parse_unsigned to_string
next_resource_version current = elim (parse_unsigned 64 current) [
  | none ↦ "2"
  | some version ↦ to_string (suc version % 2 ^ 64)
]

abbrev demo_grant : String → CatalogGrant
demo_grant verb = record { group = "stardelt-users"; verb = verb }

abbrev pub demo_row : AdminCatalog
demo_row = record {
  name = "warehouse";
  layer = none;
  display_name = none;
  description = none;
  owner = some "stardelt-admins";
  managed_access = false;
  key_prefix = none;
  phase = "Ready";
  warehouse_id = none;
  generation = some (pos 1);
  observed_generation = some (pos 1);
  resource_version = some "1";
  grants =
      demo_grant "browse" ∷ demo_grant "select" ∷ demo_grant "write" ∷ demo_grant "create" ∷ [];
  conditions = [];
}

abbrev condition : String → String → String → String → CatalogCondition
condition kind status reason message = record {
  kind = kind;
  status = status;
  reason = some reason;
  message = some message;
}

abbrev pub demo_conditions : List CatalogCondition
demo_conditions =
    condition "CatalogReady" "True" "Ready" "catalog and its grants are ready"
    ∷ condition "GrantsReady" "True" "Ready" "grants match the resource"
    ∷ condition "Drift" "False" "Clean" "no foreign grants"
    ∷ []

-- The row behind a change in the demo.
unfoldable pub changed_row : AdminCatalog → CatalogAccessUpdate → AdminCatalog
unfolding next_resource_version ◌+ℤ◌
changed_row row update =
    let generation = some (unwrap_or (pos 1) row.generation +ℤ pos 1) in
    record {
      name = row.name;
      layer = row.layer;
      display_name = row.display_name;
      description = row.description;
      owner = some update.owner;
      managed_access = update.managed_access;
      key_prefix = row.key_prefix;
      phase = "Ready";
      warehouse_id = row.warehouse_id;
      generation = generation;
      observed_generation = generation;
      resource_version = some (next_resource_version (unwrap_or "1" row.resource_version));
      grants = update.grants;
      conditions = demo_conditions;
    }

abbrev pub with_limiter : Desk → Limiter → Desk
with_limiter desk limiter = record {
  limiter = limiter;
  demo_catalog = desk.demo_catalog;
  patches = desk.patches;
  audit = desk.audit;
}

abbrev pub current_row : Desk → AdminCatalog
current_row desk = unwrap_or demo_row desk.demo_catalog

unfoldable pub demo_update : Desk → ℕ → String → CatalogAccessUpdate → Identity → Desk × Answer
unfolding take_access_change_slot changed_row audit_change
demo_update desk now name update who =
    let row = current_row desk in
    let (limiter, granted) = take_access_change_slot desk.limiter now who.sub in
    let changed = changed_row row update in
    if not (str_eq row.name name)
    then (desk, err no_such_catalog)
    else if not (str_eq update.resource_version (unwrap_or "1" row.resource_version))
    then (desk, err catalog_changed)
    else if not granted
    then (with_limiter desk limiter, err too_many_changes)
    else (
      record {
        limiter = limiter;
        demo_catalog = some changed;
        patches = desk.patches;
        audit =
            desk.audit
            ++ audit_change who name row.owner update.owner row.grants update.grants ∷ [];
      },
      ok changed,
    )
