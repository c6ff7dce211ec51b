-- ===== src/AdminCatalogs/Update.antt =====
-- The change of a catalog's access: `update_access` of backend/src/admin_catalogs.rs. The locks make each change one step but for the calls of the
-- cluster, whose answers are a parameter.
pub mod Laws
pub mod Numbers
pub mod Versions
mod Tests
use stardelt_nova.Prelude.{
  ℕ, suc, ◌%◌, ◌^◌, String, Bool, false, true, not, ◌&&◌, ◌||◌, Option, none, some, unwrap_or, List,
  [], ◌∷◌, ◌++◌, leb, length, if◌then◌else◌, str_eq, ◌==◌,
}
use stardelt_nova.Prelude.Int.{ℤ, pos, ◌+ℤ◌}
use stardelt_nova.Prelude.Results.{Result, ok, err}
use stardelt_nova.Text.{byte_len, is_lower, is_digit, all_chars, head_is, is_empty, parse_unsigned}
use stardelt_nova.Text.Numbers.{to_string}
use stardelt_nova.Values.{ValueApi}
use stardelt_nova.Identity.{Identity}
use stardelt_nova.Limiter.{Limiter, take_access_change_slot}
use stardelt_nova.Pipelines.Answers.{Fail}
use stardelt_nova.AdminCatalogs.Types.{
  CatalogGrant, CatalogCondition, AdminCatalog, CatalogAccessUpdate, no_such_catalog,
  catalog_changed, too_many_changes, cluster_unavailable, cluster_unreachable,
}
use stardelt_nova.AdminCatalogs.Validate.{validate_access}
use stardelt_nova.AdminCatalogs.Pairs.{Pair, pairs_of, difference, common}
use stardelt_nova.AdminCatalogs.Rows.{NumberApi, row_from_object}
use stardelt_nova.AdminCatalogs.Demo.{
  AccessChange, audit_change, Desk, Answer, next_resource_version, demo_row, changed_row,
  with_limiter, current_row, demo_update, demo_conditions,
}

-- `valid_catalog` of backend/src/catalog.rs.
unfoldable pub valid_catalog : String → Bool
unfolding byte_len head_is all_chars is_lower is_digit
valid_catalog name =
    not (is_empty name)
    && leb (byte_len name) 40
    && head_is is_lower name
    && all_chars (λ b. is_lower b || is_digit b) name

-- What the cluster answers: to `get_opt`, and to the merge patch, whose error is the code of the
-- API server where it is one.
pub record CatalogResources (V : Type 0) : Type 0 where
  pub get_opt : String → Result String (Option V)
  pub patch : String → CatalogAccessUpdate → Result (Option ℕ) V

abbrev pub patch_fail : Option ℕ → Fail
patch_fail none = cluster_unavailable
patch_fail (some code) =
    if code == 409
    then catalog_changed
    else if code == 404
    then no_such_catalog
    else cluster_unavailable

module _ {V : Type 0} (api : ValueApi V) (numbers : NumberApi V) where
  -- The change of an object that is there, with a slot taken.
  unfoldable pub patch_object :
      CatalogResources V → Desk → String → CatalogAccessUpdate → Identity → V → Desk × Answer
  unfolding row_from_object audit_change
  patch_object resources desk name update who object =
      let before = row_from_object api numbers object in
      let sent = desk.patches ++ (name, update) ∷ [] in
      elim (resources.patch name update) [
        | err code ↦ (
          record {
            limiter = desk.limiter;
            demo_catalog = desk.demo_catalog;
            patches = sent;
            audit = desk.audit;
          },
          err (patch_fail code),
        )
        | ok after ↦ (
          record {
            limiter = desk.limiter;
            demo_catalog = desk.demo_catalog;
            patches = sent;
            audit =
                desk.audit
                ++ audit_change who name before.owner update.owner before.grants update.grants ∷ [];
          },
          ok (row_from_object api numbers after),
        )
      ]

  unfoldable pub change_object :
      CatalogResources V
      → Desk
      → ℕ
      → String
      → CatalogAccessUpdate
      → Identity
      → Result String (Option V)
      → Desk × Answer
  unfolding take_access_change_slot patch_object
  change_object resources desk now name update who (err e) = (desk, err cluster_unavailable)
  change_object resources desk now name update who (ok none) = (desk, err no_such_catalog)
  change_object resources desk now name update who (ok (some object)) =
      let (limiter, granted) = take_access_change_slot desk.limiter now who.sub in
      let taken = with_limiter desk limiter in
      let patched = patch_object resources taken name update who object in
      if granted then patched else (taken, err too_many_changes)

  abbrev pub without_cluster :
      Bool → Desk → ℕ → String → CatalogAccessUpdate → Identity → Desk × Answer
  without_cluster true desk now name update who = demo_update desk now name update who
  without_cluster false desk now name update who = (desk, err cluster_unreachable)

  -- The change behind the checks of the name and the body.
  unfoldable pub change_access :
      Option (CatalogResources V)
      → Bool
      → Desk
      → ℕ
      → String
      → CatalogAccessUpdate
      → Identity
      → Desk × Answer
  unfolding demo_update change_object
  change_access none demo desk now name update who = without_cluster demo desk now name update who
  change_access (some resources) demo desk now name update who =
      change_object resources desk now name update who (resources.get_opt name)

  unfoldable pub update_access :
      Option (CatalogResources V)
      → Bool
      → Desk
      → ℕ
      → String
      → CatalogAccessUpdate
      → Identity
      → Desk × Answer
  unfolding valid_catalog validate_access change_access
  update_access cluster demo desk now name update who =
      let change = change_access cluster demo desk now name update who in
      if not (valid_catalog name)
      then (desk, err no_such_catalog)
      else elim (validate_access update) [ err fail ↦ (desk, err fail) | ok done ↦ change ]
