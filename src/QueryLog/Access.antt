-- ===== src/QueryLog/Access.antt =====
-- Who may see which row: backend/src/query_log.rs, and the caller of query_log_api.rs.
use stardelt_nova.Prelude.{
  String, Bool, true, ◌||◌, Option, none, some, is_some_and, List, [], ◌∷◌, any, str_eq,
}
use stardelt_nova.Identity.{Identity}

pub record RowOwner : Type 0 where
  pub principal : String
  pub owner_group : Option String

-- `Viewer`, and `Caller` with owned data.
pub record Viewer : Type 0 where
  pub username : String
  pub sub : String
  pub groups : List String
  pub is_admin : Bool

pub data Scope : Type 0 where
  mine team everything : Scope

unfoldable pub in_scope : Scope → RowOwner → Viewer → Bool
in_scope mine row viewer = str_eq row.principal viewer.username || str_eq row.principal viewer.sub
in_scope team row viewer =
    is_some_and row.owner_group (λ group. any (λ g. str_eq g group) viewer.groups)
in_scope everything row viewer = viewer.is_admin

unfoldable pub visible : RowOwner → Viewer → Bool
unfolding in_scope
visible row viewer = any (λ scope. in_scope scope row viewer) (mine ∷ team ∷ everything ∷ [])

-- `Caller::of`: with no sign-in there is one user, the operator.
unfoldable pub caller_of : Option Identity → String → Viewer
caller_of none dev_user = record {
  username = dev_user;
  sub = dev_user;
  groups = [];
  is_admin = true;
}
caller_of (some who) dev_user = record {
  username = who.display_name;
  sub = who.sub;
  groups = who.groups;
  is_admin = who.is_admin;
}
