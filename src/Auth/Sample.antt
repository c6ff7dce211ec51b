-- ===== src/Auth/Sample.antt =====
-- Values for the tests: texts, truth values, lists of texts, and objects of these; and the methods
-- on them.
use stardelt_nova.Prelude.{
  String, Bool, Option, none, some, List, [], ◌∷◌, map, if◌then◌else◌, str_eq,
}
use stardelt_nova.Values.{ValueApi}

pub data Flat : Type 0 where
  text : String → Flat
  truth : Bool → Flat
  items : List String → Flat

pub data Json : Type 0 where
  flat : Flat → Json
  object : List (String × Flat) → Json

member : List (String × Flat) → String → Option Json
member [] key = none
member ((k, v) ∷ rest) key = if str_eq k key then some (flat v) else member rest key

field_of : Json → String → Option Json
unfolding member
field_of (object members) key = member members key
field_of (flat v) key = none

text_in : Json → Option String
text_in (flat (text s)) = some s
text_in (flat (truth b)) = none
text_in (flat (items ss)) = none
text_in (object members) = none

truth_in : Json → Option Bool
truth_in (flat (truth b)) = some b
truth_in (flat (text s)) = none
truth_in (flat (items ss)) = none
truth_in (object members) = none

items_in : Json → Option (List Json)
items_in (flat (items ss)) = some (map (λ s. flat (text s)) ss)
items_in (flat (text s)) = none
items_in (flat (truth b)) = none
items_in (object members) = none

unfoldable pub json : ValueApi Json
unfolding field_of text_in truth_in items_in
json = record {
  null = object [];
  get = field_of;
  pointer = field_of;
  as_str = text_in;
  as_bool = truth_in;
  as_u64 = λ v. none;
  as_array = items_in;
}
