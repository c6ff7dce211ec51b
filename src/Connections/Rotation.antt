-- ===== src/Connections/Rotation.antt =====
-- `merge_rotation` of backend/src/connections.rs: new values for some fields of a secret.
mod Fields
pub mod Laws
mod Tests
use stardelt_nova.Prelude.{
  String, Bool, true, false, not, ◌&&◌, Option, none, some, List, [], ◌∷◌, leb, ◌==◌, length,
}
use stardelt_nova.Prelude.Results.{Result, ok, err, ◌>>=◌, ◌>>◌, guard, each}
use stardelt_nova.Text.{byte_len, is_empty, ◌&◌}
use stardelt_nova.Map.{Map, contains, extend}
use stardelt_nova.Connections.Types.{Scope, personal, group, managed, max_value_bytes}

-- One round of the loop over the patch; `keys` are the fields of the connection.
unfoldable pub check_rotated : List String → String × String → Result String (Unit {0})
check_rotated keys (k, v) = do
  guard (contains keys k) ("`" & k & "` is not a field of this connection")
  guard (not (is_empty v) && leb (byte_len v) max_value_bytes)
      ("secret field `" & k & "` must be 1 to 4096 bytes")

merge_current : Option (Map String) → Map String → Result String (Map String)
merge_current (some current) patch = ok (extend current patch)
merge_current none patch = err "the current value could not be read"

merge : Scope → Option (Map String) → List String → Map String → Result String (Map String)
unfolding merge_current
merge managed existing keys patch = do
  guard (length patch == length keys)
      "a managed connection cannot be read back, so a rotation sends every field"
  ok patch
merge personal existing keys patch = merge_current existing patch
merge group existing keys patch = merge_current existing patch

unfoldable pub merge_rotation :
    Scope → Option (Map String) → List String → Map String → Result String (Map String)
unfolding merge
merge_rotation scope existing keys patch = do
  guard (leb 1 (length patch)) "send at least one field to rotate"
  each (check_rotated keys) patch
  merge scope existing keys patch
