-- ===== src/Connections/Rotation/Tests.antt =====
-- A rotation of one of two fields, and of both fields of a managed connection.
use stardelt_nova.Prelude.{◌≡◌, refl, String, none, some, [], ◌∷◌}
use stardelt_nova.Prelude.Results.{ok, err}
use stardelt_nova.Text.{byte_len}
use stardelt_nova.Map.{Map, contains, extend}
use stardelt_nova.Text.Order.{cmp}
use stardelt_nova.Connections.Types.{personal, managed}
use stardelt_nova.Connections.Rotation.{check_rotated, merge_rotation}
use stardelt_nova.Connections.Rotation.Laws.{IsRotation, merge_rotation-IsRotation}

abbrev current : Map String
current = ("password", "old") ∷ ("user", "ann") ∷ []

abbrev sent : Map String
sent = ("password", "new") ∷ []

abbrev merged : Map String
merged = ("password", "new") ∷ ("user", "ann") ∷ []

run : merge_rotation personal (some current) ("password" ∷ "user" ∷ []) sent ≡ ok merged
unfolding merge_rotation check_rotated contains extend byte_len
run = refl

-- The stored value lacks a field that the metadata lists: the rotation adds it.
added :
    merge_rotation personal (some (("user", "ann") ∷ [])) ("password" ∷ "user" ∷ []) sent
    ≡ ok merged
unfolding merge_rotation check_rotated contains extend byte_len
added = refl

managed_half :
    merge_rotation managed none ("password" ∷ "user" ∷ []) sent
    ≡ err "a managed connection cannot be read back, so a rotation sends every field"
unfolding merge_rotation check_rotated contains extend byte_len
managed_half = refl

merge_rotation-IsRotation_example :
    IsRotation personal (some current) ("password" ∷ "user" ∷ []) sent merged
unfolding cmp
merge_rotation-IsRotation_example =
    merge_rotation-IsRotation personal (some current) ("password" ∷ "user" ∷ []) sent merged
      ((refl, tt), (tt, tt)) (tt, tt) run
