-- ===== src/AdminCatalogs/Validate/Tests.antt =====
-- A change with two grants, and one with the same grant twice.
use stardelt_nova.Prelude.{◌≡◌, refl, ◌↔◌, false, [], ◌∷◌}
use stardelt_nova.Prelude.Results.{ok, err}
use stardelt_nova.AdminCatalogs.Types.{CatalogAccessUpdate, bad_request}
use stardelt_nova.AdminCatalogs.Validate.{validate_access}
use stardelt_nova.AdminCatalogs.Validate.Laws.{IsAcceptable, validate_access_iff}

abbrev pub update : CatalogAccessUpdate
update = record {
  resource_version = "7";
  owner = "finance";
  managed_access = false;
  grants =
      record { group = "sales"; verb = "select" }
      ∷ record { group = "sales"; verb = "browse" }
      ∷ [];
}

abbrev twice : CatalogAccessUpdate
twice = record {
  resource_version = "7";
  owner = "finance";
  managed_access = false;
  grants =
      record { group = "sales"; verb = "select" }
      ∷ record { group = "sales"; verb = "select" }
      ∷ [];
}

accepted : validate_access update ≡ ok tt
unfolding validate_access stardelt_nova.Names.group_ok stardelt_nova.Text.byte_len
    stardelt_nova.Map.contains
accepted = refl

refused : validate_access twice ≡ err (bad_request "sales appears twice with select")
unfolding validate_access stardelt_nova.Names.group_ok stardelt_nova.Text.byte_len
    stardelt_nova.Map.contains
refused = refl

validate_access_iff_example : (validate_access update ≡ ok tt) ↔ IsAcceptable update
validate_access_iff_example = validate_access_iff update
