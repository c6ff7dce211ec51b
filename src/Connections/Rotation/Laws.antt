-- ===== src/Connections/Rotation/Laws.antt =====
-- Which fields a rotation leaves, and which values they have.
use stardelt_nova.Prelude.{
  ◌≡◌, ◌≢◌, ◌||◌, refl, ◌∙◌, String, Option, none, some, List, length, arith, if◌then◌else◌,
}
use stardelt_nova.Prelude.Results.{ok, each, each_iff}
use stardelt_nova.Map.{Map, get, contains, contains_key, keys, extend, IsAscending, get-extend}
use stardelt_nova.Connections.Types.{Scope, personal, group, managed}
use stardelt_nova.Connections.Rotation.{check_rotated, merge, merge_current, merge_rotation}
use stardelt_nova.Connections.Rotation.Fields.{
  Within, contains-keys, length-Within, length-keys, patch-Within, keys-extend,
}

-- What one rotation makes: of a managed connection the fields that were sent, which are all of the
-- connection; of another one the fields that were read back with those that were sent, each of
-- which the connection is said to have.
pub data IsRotation (scope : Scope) (existing : Option (Map String)) (fields : List String)
    (patch : Map String) : Map String → Type 0 where
  sent_all : scope ≡ managed → keys patch ≡ fields → IsRotation scope existing fields patch patch
  sent_some :
      (current merged : Map String)
      → scope ≢ managed
      → existing ≡ some current
      → Within (keys patch) fields
      → ((k : String)
          → get k merged ≡ (if contains_key k patch then get k patch else get k current))
      → ((k : String)
          → contains (keys merged) k ≡ (contains (keys current) k || contains (keys patch) k))
      → IsRotation scope existing fields patch merged

keys_of_extend :
    (current patch : Map String) (k : String)
    → IsAscending (keys patch)
    → contains (keys (extend current patch)) k
      ≡ (contains (keys current) k || contains (keys patch) k)
unfolding contains_key
keys_of_extend current patch k asc = ground (
  arith,
  contains-keys (extend current patch) k,
  contains-keys current k,
  contains-keys patch k,
  get-extend k current patch asc,
)

module _ (fields : List String) (patch : Map String) (asc : IsAscending fields)
    (patch_asc : IsAscending (keys patch)) (inside : Within (keys patch) fields) where
  sent_whole :
      (existing : Option (Map String))
      → length patch ≡ length fields
      → IsRotation managed existing fields patch patch
  sent_whole existing size =
      sent_all refl
        ((length-Within (keys patch) fields patch_asc asc inside).1 (length-keys patch ∙ size))

  merged_current :
      (scope : Scope) (current : Map String)
      → scope ≢ managed
      → IsRotation scope (some current) fields patch (extend current patch)
  merged_current scope current other =
      sent_some current (extend current patch) other refl inside
        (λ k. get-extend k current patch patch_asc) (λ k. keys_of_extend current patch k patch_asc)

  merge-IsRotation :
      (scope : Scope) (existing : Option (Map String)) (merged : Map String)
      → merge scope existing fields patch ≡ ok merged
      → IsRotation scope existing fields patch merged
  unfolding merge merge_current
  merge-IsRotation managed existing merged h =
      let same : patch ≡ merged = ground arith in rw (← same) (sent_whole existing (ground arith))
  merge-IsRotation personal (some current) merged h =
      let same : extend current patch ≡ merged = ground arith in
      rw (← same) (merged_current personal current (λ e. cc))
  merge-IsRotation group (some current) merged h =
      let same : extend current patch ≡ merged = ground arith in
      rw (← same) (merged_current group current (λ e. cc))
  merge-IsRotation personal none merged h = cc
  merge-IsRotation group none merged h = cc

-- A rotation that succeeds sends only fields that the connection is said to have. Of a managed
-- connection all of them are sent, and the result is what was sent. Of a personal or group
-- connection a field that was sent has the value that was sent, every other field has the value
-- that was read back, and the fields are those that were read back and those that were sent.
-- The names of the connection and of the patch are in order, as the sets and maps keep them.
pub merge_rotation-IsRotation :
    (scope : Scope) (existing : Option (Map String)) (fields : List String)
    (patch merged : Map String)
    → IsAscending fields
    → IsAscending (keys patch)
    → merge_rotation scope existing fields patch ≡ ok merged
    → IsRotation scope existing fields patch merged
unfolding merge_rotation
merge_rotation-IsRotation scope existing fields patch merged asc patch_asc h =
    let checked : each (check_rotated fields) patch ≡ ok tt = ground arith in
    merge-IsRotation fields patch asc patch_asc
      (patch-Within fields patch ((each_iff _ _).0 checked)) scope existing merged (ground arith)

-- So where the fields that were read back are those that the connection is said to have, none is
-- added and none is dropped.
merge_rotation-fields :
    (scope : Scope) (current : Map String) (patch merged : Map String)
    → IsAscending (keys current)
    → IsAscending (keys patch)
    → merge_rotation scope (some current) (keys current) patch ≡ ok merged
    → keys merged ≡ keys current
unfolding merge_rotation merge merge_current
merge_rotation-fields scope current patch merged asc patch_asc h =
    let checked : each (check_rotated (keys current)) patch ≡ ok tt = ground arith in
    let inside = patch-Within (keys current) patch ((each_iff _ _).0 checked) in
    let made : merge scope (some current) (keys current) patch ≡ ok merged = ground arith in
    go scope made inside
  where
    go :
        (scope : Scope)
        → merge scope (some current) (keys current) patch ≡ ok merged
        → Within (keys patch) (keys current)
        → keys merged ≡ keys current
    go managed made inside =
        let same : patch ≡ merged = ground arith in
        let size : length patch ≡ length (keys current) = ground arith in
        rw (← same) (
          (length-Within (keys patch) (keys current) patch_asc asc inside).1
            (length-keys patch ∙ size))
    go personal made inside =
        let same : extend current patch ≡ merged = ground arith in
        rw (← same) (keys-extend current patch asc patch_asc inside)
    go group made inside =
        let same : extend current patch ≡ merged = ground arith in
        rw (← same) (keys-extend current patch asc patch_asc inside)
