-- ===== src/Warehouses.antt =====
-- The SQL warehouses of backend/src/warehouses.rs: one row for each `SqlWarehouse` object, the
-- largest class first, and the row that the caller's queries land in.
pub mod Yours
pub mod Sorted
mod Tests
use Prim.Native.Nat.{Ordering, lt, eq, gt}
use stardelt_nova.Prelude.{
  ℕ, zero, suc, ◌+◌, ◌^◌, String, Bool, true, false, ◌&&◌, ◌||◌, Option, none, some, ◌>>=◌, List,
  [], ◌∷◌, map, any, length, ltb, str_eq, if◌then◌else◌,
}
use stardelt_nova.Text.Order.{cmp}
use stardelt_nova.Map.{contains}
use stardelt_nova.Identity.{Identity}
use stardelt_nova.Values.{ValueApi}

-- A row of `CLASS_DEFAULTS`: queries that run, queries that wait, and the share of the memory.
abbrev pub class_table : List (String × ℕ × ℕ × String)
class_table =
    ("xs", 2, 10, "10%")
    ∷ ("small", 10, 100, "20%")
    ∷ ("medium", 5, 50, "40%")
    ∷ ("large", 6, 70, "70%")
    ∷ []

abbrev pub default_size : String
default_size = "small"

abbrev pub size_order : List String
size_order = "large" ∷ "medium" ∷ "small" ∷ "xs" ∷ []

pub record SqlWarehouse : Type 0 where
  pub name : String
  pub display_name : Option String
  pub size : Option String
  pub running : ℕ
  pub queued : ℕ
  pub memory_share : String
  pub is_default : Bool
  pub can_use : Bool
  pub yours : Bool

abbrev row_of : String → List (String × ℕ × ℕ × String) → Option (ℕ × ℕ × String)
row_of size [] = none
row_of size ((name, running, queued, share) ∷ table) =
    if str_eq name size then some (running, queued, share) else row_of size table

abbrev pub or_else {ℓ} : {A : Type ℓ} → Option A → A → A
or_else none a = a
or_else (some b) a = b

-- The last answer stands for the panic of `expect`: the table holds the default size.
unfoldable pub class_defaults : String → ℕ × ℕ × String
class_defaults size =
    or_else (row_of size class_table) (or_else (row_of default_size class_table) (0, 0, ""))

abbrev as_u32 : ℕ → Option ℕ
as_u32 n = if ltb n (2 ^ 32) then some n else none

abbrev index_of : String → List String → Option ℕ
index_of s [] = none
index_of s (t ∷ ts) = if str_eq t s then some 0 else (do n ← index_of s ts; some (suc n))

unfoldable pub size_rank : Option String → ℕ
size_rank none = length size_order
size_rank (some size) = or_else (index_of size size_order) (length size_order)

module _ {V : Type 0} (api : ValueApi V) where
  unfoldable pub size_of : V → String
  size_of spec = or_else (do v ← api.get spec "size"; api.as_str v) default_size

  unfoldable pub number : Option V → ℕ → ℕ
  number value fallback = or_else (do v ← value; n ← api.as_u64 v; as_u32 n) fallback

  unfoldable pub numbers : String → Option V → ℕ × ℕ × String
  unfolding class_defaults number
  numbers size concurrency =
      let field = λ (key : String). (do c ← concurrency; api.get c key) in
      let (running, queued, share) = class_defaults size in
      (
        number (field "running") running,
        number (field "queued") queued,
        or_else (do v ← field "memoryShare"; api.as_str v) share,
      )

  abbrev grants_one : List String → V → Bool
  grants_one groups grant =
      or_else (do v ← api.get grant "group"; granted ← api.as_str v; some (contains groups granted))
        false

  unfoldable pub can_use_spec : List String → V → Bool
  can_use_spec groups spec =
      or_else
        (do
          v ← api.get spec "grants"
          grants ← api.as_array v
          some (any (grants_one groups) grants))
        false

  unfoldable pub row : Identity → V → SqlWarehouse
  unfolding size_of numbers can_use_spec
  row who object =
      let spec = or_else (api.get object "spec") api.null in
      let size = size_of spec in
      let (running, queued, memory_share) = numbers size (api.get spec "concurrency") in
      record {
        name = or_else (do v ← api.pointer object "/metadata/name"; api.as_str v) "";
        display_name = (do v ← api.get spec "displayName"; api.as_str v);
        size = some size;
        running = running;
        queued = queued;
        memory_share = memory_share;
        is_default = or_else (do v ← api.get spec "default"; api.as_bool v) false;
        can_use = can_use_spec who.groups spec;
        yours = false;
      }

abbrev pub admin_row : SqlWarehouse
admin_row = record {
  name = "admin";
  display_name = some "Administrators";
  size = none;
  running = 50;
  queued = 100;
  memory_share = "100%";
  is_default = false;
  can_use = true;
  yours = true;
}

abbrev is_le : Ordering → Bool
is_le lt = true
is_le eq = true
is_le gt = false

-- The comparison of `sort_by`: the size first, then the name.
unfoldable pub comes_first : SqlWarehouse → SqlWarehouse → Bool
comes_first a b =
    ltb (size_rank a.size) (size_rank b.size)
    || (if ltb (size_rank b.size) (size_rank a.size) then false else is_le (cmp a.name b.name))

-- `sort_by` is stable: a row goes before the later rows that it does not come after.
unfoldable pub place : SqlWarehouse → List SqlWarehouse → List SqlWarehouse
place r [] = r ∷ []
place r (s ∷ rows) = let rest = place r rows in if comes_first r s then r ∷ s ∷ rows else s ∷ rest

unfoldable pub sorted_rows : List SqlWarehouse → List SqlWarehouse
sorted_rows [] = []
sorted_rows (r ∷ rows) = place r (sorted_rows rows)

unfoldable pub position : (SqlWarehouse → Bool) → List SqlWarehouse → Option ℕ
position p [] = none
position p (r ∷ rows) =
    let rest = position p rows in if p r then some 0 else (do n ← rest; some (suc n))

abbrev pub with_yours : Bool → SqlWarehouse → SqlWarehouse
with_yours yours r = record {
  name = r.name;
  display_name = r.display_name;
  size = r.size;
  running = r.running;
  queued = r.queued;
  memory_share = r.memory_share;
  is_default = r.is_default;
  can_use = r.can_use;
  yours = yours;
}

-- `rows[index].yours = true`.
unfoldable pub set_yours : ℕ → List SqlWarehouse → List SqlWarehouse
set_yours n [] = []
set_yours zero (r ∷ rows) = with_yours true r ∷ rows
set_yours (suc n) (r ∷ rows) = r ∷ set_yours n rows

abbrev pub usable : SqlWarehouse → Bool
usable r = r.can_use

abbrev pub defaulted : SqlWarehouse → Bool
defaulted r = r.is_default

abbrev at : List SqlWarehouse → Option ℕ → List SqlWarehouse
at sorted none = sorted
at sorted (some n) = set_yours n sorted

abbrev first_of : Option ℕ → Option ℕ → Option ℕ
first_of none other = other
first_of (some n) other = some n

unfoldable pub mark : List SqlWarehouse → List SqlWarehouse
mark sorted = at sorted (first_of (position usable sorted) (position defaulted sorted))

module _ {V : Type 0} (api : ValueApi V) where
  unfoldable pub rows : List V → Identity → List SqlWarehouse
  unfolding mark
  rows objects who =
      let sorted = sorted_rows (map (row api who) objects) in
      if who.is_admin then admin_row ∷ map (with_yours false) sorted else mark sorted
