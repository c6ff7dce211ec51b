-- ===== src/Warehouses/Tests.antt =====
-- Two warehouses, of which the caller may use the smaller one.
use stardelt_nova.Prelude.{
  ◌≡◌, refl, ◌⊎◌, String, Bool, true, false, Option, none, some, List, [], ◌∷◌, map, str_eq,
  if◌then◌else◌,
}
use stardelt_nova.Map.{contains}
use stardelt_nova.Identity.{Identity}
use stardelt_nova.Values.{ValueApi}
use stardelt_nova.Warehouses.{
  SqlWarehouse, admin_row, row, rows, sorted_rows, place, comes_first, size_rank, position,
  set_yours,
}
use stardelt_nova.Warehouses.Yours.{Lacks, IsChosen, is_yours, rows-IsChosen}
use stardelt_nova.Warehouses.Sorted.{IsSorted, sorted_rows-IsSorted}
use mathlib.Core.List.{Perm}

-- A warehouse is a name, a size and the one group it is granted to.
data Doc : Type 0 where
  text : String → Doc
  grant : String → Doc
  warehouse : String → String → String → Doc

abbrev field : Doc → String → Option Doc
field (text s) key = none
field (grant group) key = if str_eq key "group" then some (text group) else none
field (warehouse name size group) key =
    if str_eq key "spec"
    then some (warehouse name size group)
    else if str_eq key "size"
    then some (text size)
    else if str_eq key "grants"
    then some (warehouse name size group)
    else none

abbrev name_of : Doc → String → Option Doc
name_of (text s) path = none
name_of (grant group) path = none
name_of (warehouse name size group) path = some (text name)

abbrev text_of : Doc → Option String
text_of (text s) = some s
text_of (grant group) = none
text_of (warehouse name size group) = none

abbrev items_of : Doc → Option (List Doc)
items_of (text s) = none
items_of (grant group) = none
items_of (warehouse name size group) = some (grant group ∷ [])

abbrev docs : ValueApi Doc
docs = record {
  null = text "";
  get = field;
  pointer = name_of;
  as_str = text_of;
  as_bool = λ v. none;
  as_u64 = λ v. none;
  as_array = items_of;
}

abbrev ann : Identity
ann = record {
  sub = "ann-1";
  display_name = "Ann";
  email = none;
  name = none;
  groups = "sales" ∷ [];
  roles = [];
  groups_overage = false;
  is_admin = false;
}

abbrev objects : List Doc
objects = warehouse "tiny" "xs" "sales" ∷ warehouse "big" "large" "finance" ∷ []

abbrev names : List SqlWarehouse → List (String × Bool)
names = map (λ r. (r.name, r.yours))

large_first : names (rows docs objects ann) ≡ ("big", false) ∷ ("tiny", true) ∷ []
unfolding rows position sorted_rows place comes_first size_rank row contains set_yours
large_first = refl

rows-IsChosen_example :
    ((ann.is_admin ≡ true)
      × ((others : List SqlWarehouse) × (rows docs objects ann ≡ admin_row ∷ others)
          × Lacks is_yours others))
    ⊎ ((ann.is_admin ≡ false)
        × Lacks is_yours (sorted_rows (map (row docs ann) objects))
        × IsChosen (sorted_rows (map (row docs ann) objects)) (rows docs objects ann))
rows-IsChosen_example = rows-IsChosen docs ann objects

sorted_rows-IsSorted_example :
    IsSorted (sorted_rows (map (row docs ann) objects))
    × Perm (sorted_rows (map (row docs ann) objects)) (map (row docs ann) objects)
sorted_rows-IsSorted_example = sorted_rows-IsSorted (map (row docs ann) objects)
