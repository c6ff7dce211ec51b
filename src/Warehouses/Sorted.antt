-- ===== src/Warehouses/Sorted.antt =====
-- The order of the rows.
use mathlib.Core.List.{Perm}
use mathlib.Core.List.Perm
use stardelt_nova.Prelude.{
  ℕ, ◌+◌, ◌<◌, String, ◌⊎◌, Option, none, some, refl, str_eq, eq_iff, ltb, if◌then◌else◌, ◌≡◌, inl,
  inr, true, false, List, [], ◌∷◌, All, arith, Bool-cases,
}
use stardelt_nova.Text.Order.{IsBefore, cmp_refl, eq_of_cmp, IsBefore-trans, IsBefore-of_gt}
use stardelt_nova.Warehouses.{SqlWarehouse, size_rank, comes_first, place, sorted_rows}

comes_first_trans :
    (a b c : SqlWarehouse)
    → comes_first a b ≡ true
    → comes_first b c ≡ true
    → comes_first a c ≡ true
unfolding comes_first
comes_first_trans a b c h k = ground (
  arith,
  IsBefore-trans a.name b.name c.name,
  eq_of_cmp a.name b.name,
  eq_of_cmp b.name c.name,
  IsBefore-of_gt a.name c.name,
  cmp_refl a.name,
)

comes_first_or : (a b : SqlWarehouse) → comes_first a b ≡ false → comes_first b a ≡ true
unfolding comes_first
comes_first_or a b h = ground (arith, IsBefore-of_gt a.name b.name)

-- How large a class is: the row for administrators and a class of another name come last.
abbrev pub weight : Option String → ℕ
weight none = 0
weight (some size) =
    if str_eq size "large"
    then 4
    else if str_eq size "medium"
    then 3
    else if str_eq size "small"
    then 2
    else if str_eq size "xs"
    then 1
    else 0

-- A row of a larger class, or one of the same class whose name is not a later one.
abbrev pub Precedes : SqlWarehouse → SqlWarehouse → Type 0
Precedes a b =
    (weight b.size < weight a.size)
    ⊎ ((weight a.size ≡ weight b.size) × ((a.name ≡ b.name) ⊎ IsBefore a.name b.name))

-- Every row precedes the rows after it.
abbrev pub IsSorted : List SqlWarehouse → Type 0
IsSorted [] = Unit {0}
IsSorted (r ∷ rows) = All (Precedes r) rows × IsSorted rows

size_rank-weight : (size : Option String) → size_rank size + weight size ≡ 4
unfolding size_rank
size_rank-weight none = refl
size_rank-weight (some size) = ground (
  arith,
  eq_iff size "large",
  eq_iff "large" size,
  eq_iff size "medium",
  eq_iff "medium" size,
  eq_iff size "small",
  eq_iff "small" size,
  eq_iff size "xs",
  eq_iff "xs" size,
)

not_after :
    (a b : SqlWarehouse)
    → comes_first a b ≡ true
    → weight a.size ≡ weight b.size
    → (a.name ≡ b.name) ⊎ IsBefore a.name b.name
unfolding comes_first
not_after a b h e =
    ground (arith, h, size_rank-weight a.size, size_rank-weight b.size, eq_of_cmp a.name b.name)

comes_first-Precedes : (a b : SqlWarehouse) → comes_first a b ≡ true → Precedes a b
comes_first-Precedes a b h = elim (Bool-cases (ltb (weight b.size) (weight a.size))) [
  | inl larger ↦ inl (ground arith)
  | inr small ↦
      let same : weight a.size ≡ weight b.size =
        unfold comes_first in ground (arith, h, size_rank-weight a.size, size_rank-weight b.size) in
      inr (same, not_after a b h same)
]

-- The same by the comparison of the sort.
abbrev IsOrdered : List SqlWarehouse → Type 0
IsOrdered [] = Unit {0}
IsOrdered (r ∷ rows) = All (λ s. comes_first r s ≡ true) rows × IsOrdered rows

All-Precedes :
    (r : SqlWarehouse) (rows : List SqlWarehouse)
    → All (λ s. comes_first r s ≡ true) rows
    → All (Precedes r) rows
All-Precedes r [] _ = tt
All-Precedes r (s ∷ rows) (h, hs) = (comes_first-Precedes r s h, All-Precedes r rows hs)

IsOrdered-IsSorted : (rows : List SqlWarehouse) → IsOrdered rows → IsSorted rows
IsOrdered-IsSorted [] _ = tt
IsOrdered-IsSorted (r ∷ rows) (h, hs) = (All-Precedes r rows h, IsOrdered-IsSorted rows hs)

All-place :
    (P : SqlWarehouse → Type 0) (r : SqlWarehouse) (rows : List SqlWarehouse)
    → P r
    → All P rows
    → All P (place r rows)
unfolding place
All-place P r [] p _ = (p, tt)
All-place P r (s ∷ rows) p (q, qs) = elim (Bool-cases (comes_first r s)) [
  | inl first ↦ rw first (p, (q, qs))
  | inr later ↦ rw later (q, All-place P r rows p qs)
]

All-after :
    (r s : SqlWarehouse) (rows : List SqlWarehouse)
    → comes_first r s ≡ true
    → All (λ t. comes_first s t ≡ true) rows
    → All (λ t. comes_first r t ≡ true) rows
All-after r s [] h _ = tt
All-after r s (t ∷ rows) h (k, ks) = (comes_first_trans r s t h k, All-after r s rows h ks)

place-IsOrdered :
    (r : SqlWarehouse) (rows : List SqlWarehouse) → IsOrdered rows → IsOrdered (place r rows)
unfolding place
place-IsOrdered r [] _ = (tt, tt)
place-IsOrdered r (s ∷ rows) (h, hs) = elim (Bool-cases (comes_first r s)) [
  | inl first ↦ rw first ((first, All-after r s rows first h), (h, hs))
  | inr later ↦ rw later (
    All-place (λ t. comes_first s t ≡ true) r rows (comes_first_or r s later) h,
    place-IsOrdered r rows hs,
  )
]

place-Perm : (r : SqlWarehouse) (rows : List SqlWarehouse) → Perm (place r rows) (r ∷ rows)
unfolding place
place-Perm r [] = Perm.refl _
place-Perm r (s ∷ rows) = elim (Bool-cases (comes_first r s)) [
  | inl first ↦ rw first (Perm.refl _)
  | inr later ↦ rw later (Perm.trans (Perm.cons s (place-Perm r rows)) (Perm.swap r s rows))
]

sorted_rows-IsOrdered :
    (rows : List SqlWarehouse) → IsOrdered (sorted_rows rows) × Perm (sorted_rows rows) rows
unfolding sorted_rows
sorted_rows-IsOrdered [] = (tt, Perm.refl _)
sorted_rows-IsOrdered (r ∷ rows) =
    let (up, same) = sorted_rows-IsOrdered rows in
    (place-IsOrdered r _ up, Perm.trans (place-Perm r _) (Perm.cons r same))

-- Before the caller's row is marked, the rows are the given ones in another order: large before
-- medium before small before xs, any other class last, and in one class by name.
pub sorted_rows-IsSorted :
    (rows : List SqlWarehouse) → IsSorted (sorted_rows rows) × Perm (sorted_rows rows) rows
sorted_rows-IsSorted rows =
    let (up, same) = sorted_rows-IsOrdered rows in (IsOrdered-IsSorted _ up, same)
