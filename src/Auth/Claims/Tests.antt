-- ===== src/Auth/Claims/Tests.antt =====
-- Claims of a member of the administrators' group, and of a person with too many groups.
use stardelt_nova.Prelude.{◌≡◌, refl, String, true, false, none, some, [], ◌∷◌}
use stardelt_nova.Prelude.Results.{ok, err}
use stardelt_nova.Identity.{Identity}
use stardelt_nova.Auth.Errors.{invalid_token}
use stardelt_nova.Auth.Sample.{Json, text, truth, items, object, json}
use stardelt_nova.Auth.Claims.{ClaimConfig, is_admin, admin_source, identity_from_claims}
use stardelt_nova.Auth.Claims.Laws.{
  IsReason, admin_source-IsReason, IsIdentity, identity_from_claims-IsIdentity,
}

abbrev settings : ClaimConfig
settings = record {
  group_claim = "groups";
  admin_group = some "stardelt-admins";
  admin_role = some "platform";
}

abbrev claims : Json
claims = object (
    ("sub", text " ann-1 ")
    ∷ ("email", text "ann@example.com")
    ∷ ("groups", items ("/stardelt-admins" ∷ "sales" ∷ []))
    ∷ [])

abbrev too_many : Json
too_many = object (
    ("sub", text "bob")
    ∷ ("hasgroups", truth true)
    ∷ ("groups", items ("stardelt-admins" ∷ []))
    ∷ ("roles", text "viewer")
    ∷ [])

abbrev ann : Identity
ann = record {
  sub = "ann-1";
  display_name = "ann@example.com";
  email = some "ann@example.com";
  name = none;
  groups = "/stardelt-admins" ∷ "sales" ∷ [];
  roles = [];
  groups_overage = false;
  is_admin = true;
}

ann_signs_in : identity_from_claims json claims settings ≡ ok ann
unfolding identity_from_claims json stardelt_nova.Text.trim stardelt_nova.Text.strip_prefix
ann_signs_in = refl

overage :
    identity_from_claims json too_many settings
    ≡ ok (record {
      sub = "bob";
      display_name = "bob";
      email = none;
      name = none;
      groups = [];
      roles = "viewer" ∷ [];
      groups_overage = true;
      is_admin = false;
    })
unfolding identity_from_claims json stardelt_nova.Text.trim stardelt_nova.Text.strip_prefix
overage = refl

blank :
    identity_from_claims json (object (("sub", text " ") ∷ [])) settings
    ≡ err (invalid_token "missing sub")
unfolding identity_from_claims json stardelt_nova.Text.trim stardelt_nova.Text.strip_prefix
blank = refl

identity_from_claims-IsIdentity_example : IsIdentity json claims settings ann
identity_from_claims-IsIdentity_example =
    identity_from_claims-IsIdentity json claims settings ann ann_signs_in

ann_administers : is_admin ann.roles ann.groups settings ≡ true
unfolding is_admin stardelt_nova.Text.strip_prefix
ann_administers = refl

admin_source-IsReason_example :
    (reason : String × String) × (admin_source settings ann.roles ann.groups ≡ some reason)
    × IsReason settings ann.roles ann.groups reason
admin_source-IsReason_example = admin_source-IsReason settings ann.roles ann.groups ann_administers
