-- ===== src/QueryLog/Pages/Tests.antt =====
-- A person's page and an administrator's, and a query of another person.
use stardelt_nova.Prelude.{◌≤◌, ◌≡◌, refl, true, false, none, some, [], ◌∷◌, length, All}
use stardelt_nova.Prelude.Results.{ok, err}
use stardelt_nova.Auth.Sessions.Tests.{bob}
use stardelt_nova.Identity.{Identity}
use stardelt_nova.QueryLog.Records.{finished, Accepted}
use stardelt_nova.QueryLog.Store.Tests.{event}
use stardelt_nova.QueryLog.Access.{mine, everything}
use stardelt_nova.QueryLog.Pages.{Page, list_page, detail, no_such_row, all_for_admins}
use stardelt_nova.QueryLog.Pages.Laws.{IsRead, Opens, detail-IsRead, list_page-Opens}

abbrev ann : Identity
ann = record {
  sub = "ann";
  display_name = "ann";
  email = none;
  name = none;
  groups = [];
  roles = [];
  groups_overage = false;
  is_admin = true;
}

abbrev stored : Accepted
stored = event finished "2026-01-01"

abbrev page : Page
page = record { items = stored ∷ []; next = some stored }

first_page : list_page (some bob) "dev" mine 1 (ok (stored ∷ stored ∷ [])) ≡ ok page
unfolding list_page
first_page = refl

refused : list_page (some bob) "dev" everything 1 (ok (stored ∷ [])) ≡ err all_for_admins
unfolding list_page
refused = refl

nobody : (detail (some bob) "dev" (ok none)).0 ≡ err no_such_row
unfolding detail
nobody = refl

detail-IsRead_example :
    IsRead (some ann) "dev" (ok (some stored)) (detail (some ann) "dev" (ok (some stored)))
detail-IsRead_example = detail-IsRead (some ann) "dev" (ok (some stored))

list_page-Opens_example : (length page.items ≤ 1) × All (Opens (some bob) "dev") page.items
list_page-Opens_example =
    list_page-Opens (some bob) "dev" mine 1 (ok (stored ∷ stored ∷ [])) page first_page
