-- ===== src/Connections/Access/Tests.antt =====
-- Who may use a group's connection, and where a person's secret is.
use stardelt_nova.Prelude.{◌≡◌, refl, ◌↔◌, String, false, none, some, [], ◌∷◌}
use stardelt_nova.Prelude.Results.{ok, err}
use stardelt_nova.Text.{byte_len}
use stardelt_nova.Map.{contains}
use stardelt_nova.Names.{valid_connection_name, valid_sub}
use stardelt_nova.Identity.{Identity}
use stardelt_nova.Connections.Types.{group, create, rotate, of_person, of_group}
use stardelt_nova.Connections.Access.{authorize, secret_path}
use stardelt_nova.Connections.Access.Laws.{MayUse, authorize_iff}
use stardelt_nova.Connections.Access.Paths.{secret_path_inj}

abbrev ann : Identity
ann = record {
  sub = "ann-1";
  display_name = "Ann";
  email = none;
  name = none;
  groups = "sales" ∷ [];
  roles = [];
  groups_overage = false;
  is_admin = false;
}

stranger :
    authorize ann group (some "finance") rotate ≡ err "you are not a member of the group `finance`"
unfolding authorize contains
stranger = refl

place : secret_path (of_person "ann-1") "crm" ≡ ok "connections/user/ann-1/crm"
unfolding secret_path valid_connection_name valid_sub byte_len
place = refl

authorize_iff_example :
    (authorize ann group (some "sales") create ≡ ok (of_group "sales"))
    ↔ MayUse ann (some "sales") create (of_group "sales") group
authorize_iff_example = authorize_iff ann group (some "sales") create (of_group "sales")

secret_path_inj_example : (of_person "ann-1" ≡ of_person "ann-1") × (◌≡◌ {A = String} "crm" "crm")
secret_path_inj_example =
    secret_path_inj (of_person "ann-1") (of_person "ann-1") "crm" "crm" "connections/user/ann-1/crm"
      place place
