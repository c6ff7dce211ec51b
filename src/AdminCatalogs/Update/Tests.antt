-- ===== src/AdminCatalogs/Update/Tests.antt =====
-- A change in the demo, the same version used twice, and a change in a cluster.
use stardelt_nova.Prelude.{◌≡◌, refl, true, false, none, some, List, [], ◌∷◌, arith}
use stardelt_nova.Prelude.Results.{ok, err}
use stardelt_nova.Limiter.{no_slots}
use stardelt_nova.AdminCatalogs.Types.{CatalogAccessUpdate, catalog_changed}
use stardelt_nova.AdminCatalogs.Rows.{NumberApi}
use stardelt_nova.AdminCatalogs.Demo.{
  Desk, next_resource_version, changed_row, current_row, demo_row, demo_update,
}
use stardelt_nova.AdminCatalogs.Update.{CatalogResources, update_access}
use stardelt_nova.AdminCatalogs.Update.Laws.{IsEffect, update_access-IsEffect}
use stardelt_nova.AdminCatalogs.Update.Versions.{DemoCall, demo_updates, demo_update-changed}
use stardelt_nova.Auth.Sample.{Json, text, object, json}
use stardelt_nova.Auth.Sessions.Tests.{bob}

abbrev desk : Desk
desk = record { limiter = no_slots; demo_catalog = none; patches = []; audit = [] }

abbrev update : CatalogAccessUpdate
update = record {
  resource_version = "1";
  owner = "finance";
  managed_access = true;
  grants = record { group = "sales"; verb = "select" } ∷ [];
}

changed : (demo_update desk 5 "warehouse" update bob).1 ≡ ok (changed_row demo_row update)
unfolding demo_update stardelt_nova.Limiter.take_slot stardelt_nova.Limiter.pop_expired
changed = refl

version_two : next_resource_version "41" ≡ "42"
unfolding next_resource_version
version_two = refl

-- Another administrator changes the row again before.
abbrev again : CatalogAccessUpdate
again = record { resource_version = "2"; owner = "sales"; managed_access = true; grants = [] }

abbrev calls : List DemoCall
calls = (7, "warehouse", again, bob) ∷ []

third :
    (current_row
      (demo_updates calls (demo_update desk 5 "warehouse" update bob).0)).resource_version
    ≡ some "3"
unfolding demo_updates demo_update stardelt_nova.Limiter.take_slot stardelt_nova.Limiter.pop_expired
third = refl

demo_update-changed_example :
    demo_update
      (demo_updates calls (demo_update desk 5 "warehouse" update bob).0)
      9
      "warehouse"
      update
      bob
    ≡ (demo_updates calls (demo_update desk 5 "warehouse" update bob).0, err catalog_changed)
demo_update-changed_example =
    demo_update-changed desk 5 9 "warehouse" update update bob bob (changed_row demo_row update)
      calls changed (omega arith) refl

abbrev cluster : CatalogResources Json
cluster = record {
  get_opt = λ name. ok (some (object (("name", text name) ∷ [])));
  patch = λ name body. ok (object []);
}

abbrev numbers : NumberApi Json
numbers = record { number_text = λ v. none; as_i64 = λ v. none }

update_access-IsEffect_example :
    IsEffect json numbers
      (some cluster)
      desk
      5
      "finance"
      update
      bob
      (update_access json numbers (some cluster) false desk 5 "finance" update bob)
update_access-IsEffect_example =
    update_access-IsEffect json numbers (some cluster) false desk 5 "finance" update bob
