-- ===== src/Connections/Access.antt =====
-- Who may do what to which scope (`authorize` of backend/src/connections.rs), and where in the
-- store that is (`scope_prefix` and `secret_path` of backend/src/secret_store.rs).
pub mod Laws
pub mod Paths
mod Tests
use stardelt_nova.Prelude.{String, Bool, true, false, ◌&&◌, ◌||◌, Option, none, some, if◌then◌else◌}
use stardelt_nova.Prelude.Results.{Result, ok, err, ◌>>=◌, ◌>>◌, guard}
use stardelt_nova.Text.{◌&◌}
use stardelt_nova.Map.{contains}
use stardelt_nova.Names.{valid_connection_name, valid_group, valid_sub}
use stardelt_nova.Identity.{Identity}
use stardelt_nova.Connections.Types.{
  Scope, personal, group, managed, Action, create, rotate, delete, StoreScope, of_person, of_group,
  of_administrators,
}

abbrev is_delete : Action → Bool
is_delete delete = true
is_delete create = false
is_delete rotate = false

-- The error is the sentence of `Denied`.
unfoldable pub authorize : Identity → Scope → Option String → Action → Result String StoreScope
authorize who personal owner_group action = ok (of_person who.sub)
authorize who group none action = err "a group connection needs an ownerGroup"
authorize who group (some g) action =
    if contains who.groups g || (who.is_admin && is_delete action)
    then ok (of_group g)
    else if who.is_admin
    then err (
        "an administrator may delete a connection of the group `" & g
        & "` but not create or rotate one")
    else err ("you are not a member of the group `" & g & "`")
authorize who managed owner_group action =
    if who.is_admin
    then ok of_administrators
    else err "only administrators manage managed connections"

-- The errors are `StoreError::Invalid` with its sentence.
unfoldable pub scope_prefix : StoreScope → Result String String
scope_prefix (of_person sub) =
    if valid_sub sub
    then ok ("connections/user/" & sub)
    else err "the user id cannot be used in a store path"
scope_prefix (of_group g) =
    if valid_group g
    then ok ("connections/group" & "/" & g)
    else err "the group name cannot be used in a store path"
scope_prefix of_administrators = ok "connections/managed"

unfoldable pub secret_path : StoreScope → String → Result String String
unfolding scope_prefix
secret_path scope name = do
  guard (valid_connection_name name)
      "a connection name is 1 to 40 lower-case letters, digits and dashes, starting with a letter"
  prefix ← scope_prefix scope
  ok (prefix & "/" & name)
