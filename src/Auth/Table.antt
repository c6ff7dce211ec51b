-- ===== src/Auth/Table.antt =====
-- A `HashMap` with texts as keys, and the methods of it that the stores of backend/src/auth.rs
-- call. An entry stands once, in no order that matters.
use stardelt_nova.Prelude.{
  suc, ◌≤◌, String, ◌≡◌, refl, Bool, Option, none, some, [], ◌∷◌, if◌then◌else◌, str_eq, eq_iff,
  length, arith, Bool-cases, inl, inr,
}
use stardelt_nova.Map.{Map, get}

module _ {V : Type 0} where
  -- `m.remove(k)`, without the value.
  unfoldable pub remove : String → Map V → Map V
  remove k [] = []
  remove k ((j, v) ∷ m) = let rest = remove k m in if str_eq j k then rest else (j, v) ∷ rest

  -- `m.insert(k, v)`.
  unfoldable pub put : String → V → Map V → Map V
  unfolding remove
  put k v m = (k, v) ∷ remove k m

  -- `m.retain(|_, v| p(v))`.
  unfoldable pub retain : (V → Bool) → Map V → Map V
  retain p [] = []
  retain p ((j, v) ∷ m) = let rest = retain p m in if p v then (j, v) ∷ rest else rest

  abbrev pub keep_if : (V → Bool) → Option V → Option V
  keep_if p none = none
  keep_if p (some v) = if p v then some v else none

  -- No key stands twice.
  abbrev pub IsTable : Map V → Type 0
  IsTable [] = Unit
  IsTable ((k, v) ∷ m) = (get k m ≡ none) × IsTable m

  pub get-remove :
      (k j : String) (m : Map V) → get j (remove k m) ≡ (if str_eq k j then none else get j m)
  unfolding get remove
  get-remove k j [] = ground arith
  get-remove k j ((i, v) ∷ m) = ground (arith, eq_iff i k, eq_iff i j, eq_iff k j, get-remove k j m)

  pub get-put :
      (k j : String) (v : V) (m : Map V)
      → get j (put k v m) ≡ (if str_eq k j then some v else get j m)
  unfolding get put
  get-put k j v m = ground (arith, get-remove k j m)

  get-retain-none :
      (p : V → Bool) (k : String) (m : Map V) → get k m ≡ none → get k (retain p m) ≡ none
  unfolding get retain
  get-retain-none p k [] h = refl
  get-retain-none p k ((i, v) ∷ m) h = ground (arith, get-retain-none p k m)

  pub get-retain :
      (p : V → Bool) (k : String) (m : Map V) → IsTable m → get k (retain p m) ≡ keep_if p (get k m)
  unfolding get retain
  get-retain p k [] _ = refl
  get-retain p k ((i, v) ∷ m) (fresh, rest) =
      ground (arith, eq_iff i k, get-retain-none p i m fresh, get-retain p k m rest)

  pub remove-IsTable : (k : String) (m : Map V) → IsTable m → IsTable (remove k m)
  unfolding remove
  remove-IsTable k [] _ = tt
  remove-IsTable k ((i, v) ∷ m) (fresh, rest) = elim (Bool-cases (str_eq i k)) [
    | inl same ↦ rw same (remove-IsTable k m rest)
    | inr other ↦ rw other (ground (arith, get-remove k i m), remove-IsTable k m rest)
  ]

  pub put-IsTable : (k : String) (v : V) (m : Map V) → IsTable m → IsTable (put k v m)
  unfolding put
  put-IsTable k v m h = (ground (arith, get-remove k k m, eq_iff k k), remove-IsTable k m h)

  pub retain-IsTable : (p : V → Bool) (m : Map V) → IsTable m → IsTable (retain p m)
  unfolding retain
  retain-IsTable p [] _ = tt
  retain-IsTable p ((i, v) ∷ m) (fresh, rest) = elim (Bool-cases (p v)) [
    | inl kept ↦ rw kept (get-retain-none p i m fresh, retain-IsTable p m rest)
    | inr gone ↦ rw gone (retain-IsTable p m rest)
  ]

  pub length-remove : (k : String) (m : Map V) → length (remove k m) ≤ length m
  unfolding remove
  length-remove k [] = omega arith
  length-remove k ((i, v) ∷ m) = ground (arith, length-remove k m)

  pub length-put : (k : String) (v : V) (m : Map V) → length (put k v m) ≤ suc (length m)
  unfolding put
  length-put k v m = omega (arith, length-remove k m)

  pub length-retain : (p : V → Bool) (m : Map V) → length (retain p m) ≤ length m
  unfolding retain
  length-retain p [] = omega arith
  length-retain p ((i, v) ∷ m) = ground (arith, length-retain p m)
