-- ===== src/Map/Defs.antt =====
-- The operations of the ordered map.
use Prim.Native.Nat.{Ordering}
use stardelt_nova.Prelude.{
  String, Bool, false, Option, none, some, List, [], ◌∷◌, ◌||◌, if◌then◌else◌, str_eq, map, All,
  is_some,
}
use stardelt_nova.Text.Order.{cmp, IsBefore}

abbrev pub Map {ℓ} : Type ℓ → Type ℓ
Map V = List (String × V)

module _ {ℓ} {V : Type ℓ} where
  -- `m.get(k)`.
  unfoldable pub get : String → Map V → Option V
  get k [] = none
  get k ((j, v) ∷ m) = if str_eq j k then some v else get k m

  -- `m.contains_key(k)`.
  unfoldable pub contains_key : String → Map V → Bool
  unfolding get
  contains_key k m = is_some (get k m)

  -- Where a new entry goes beside the first one of a map.
  abbrev pub place : Ordering → String × V → String × V → Map V → Map V → Map V
  place Ordering.lt new first rest later = new ∷ first ∷ rest
  place Ordering.eq new first rest later = new ∷ rest
  place Ordering.gt new first rest later = first ∷ later

  -- `m.insert(k, v)`.
  unfoldable pub insert : String → V → Map V → Map V
  unfolding cmp
  insert k v [] = (k, v) ∷ []
  insert k v ((j, w) ∷ m) = place (cmp k j) (k, v) (j, w) m (insert k v m)

  -- `m.extend(patch)`, which inserts the entries of `patch` in turn.
  unfoldable pub extend : Map V → Map V → Map V
  unfolding insert
  extend m [] = m
  extend m ((k, v) ∷ patch) = extend (insert k v m) patch

  abbrev pub keys : Map V → List String
  keys m = map (λ e. e.0) m

-- `contains` of a set or a slice of texts.
unfoldable pub contains : List String → String → Bool
contains [] k = false
contains (j ∷ js) k = str_eq j k || contains js k

-- The keys stand in order and no key stands twice.
abbrev pub IsAscending : List String → Type 0
IsAscending [] = Unit
IsAscending (k ∷ ks) = All (λ j. IsBefore k j) ks × IsAscending ks
