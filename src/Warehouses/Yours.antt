-- ===== src/Warehouses/Yours.antt =====
-- Which row is the caller's.
use stardelt_nova.Prelude.{
  ℕ, suc, ◌≡◌, refl, ◌⊎◌, inl, inr, Bool, true, false, none, some, List, [], ◌∷◌, ◌++◌, map, All,
  arith, Bool-cases, Option-cases,
}
use stardelt_nova.Identity.{Identity}
use stardelt_nova.Values.{ValueApi}
use stardelt_nova.Warehouses.{
  SqlWarehouse, admin_row, comes_first, with_yours, usable, defaulted, place, sorted_rows, position,
  set_yours, mark, row, rows,
}

abbrev pub Lacks : (SqlWarehouse → Bool) → List SqlWarehouse → Type 0
Lacks p rs = All (λ r. p r ≡ false) rs

abbrev pub is_yours : SqlWarehouse → Bool
is_yours r = r.yours

-- `after` is `sorted` with the first row that has `p`, and no other, marked as the caller's.
pub record IsMarked (p : SqlWarehouse → Bool) (sorted after : List SqlWarehouse) : Type 0 where
  pub front : List SqlWarehouse
  pub chosen : SqlWarehouse
  pub back : List SqlWarehouse
  pub whole : sorted ≡ front ++ chosen ∷ back
  pub marked : after ≡ front ++ with_yours true chosen ∷ back
  pub is_chosen : p chosen ≡ true
  pub is_first : Lacks p front

position-IsMarked :
    (p : SqlWarehouse → Bool) (rs : List SqlWarehouse) (n : ℕ)
    → position p rs ≡ some n
    → IsMarked p rs (set_yours n rs)
unfolding position set_yours
position-IsMarked p [] n h = cc
position-IsMarked p (r ∷ rs) n h = elim (Bool-cases (p r)) [
  | inl found ↦
      let same : 0 ≡ n = ground arith in
      rw (← same) (record {
        front = [];
        chosen = r;
        back = rs;
        whole = refl;
        marked = refl;
        is_chosen = found;
        is_first = tt;
      })
  | inr missed ↦ elim (Option-cases (position p rs)) [
    | inl nowhere ↦ ground arith
    | inr (k, e) ↦
        let same : suc k ≡ n = ground arith in
        let rest = position-IsMarked p rs k e in
        rw (← same) (record {
          front = r ∷ rest.front;
          chosen = rest.chosen;
          back = rest.back;
          whole = cc (rest.whole);
          marked = cc (rest.marked);
          is_chosen = rest.is_chosen;
          is_first = (missed, rest.is_first);
        })
  ]
]

position-Lacks :
    (p : SqlWarehouse → Bool) (rs : List SqlWarehouse) → position p rs ≡ none → Lacks p rs
unfolding position
position-Lacks p [] h = tt
position-Lacks p (r ∷ rs) h = elim (Option-cases (position p rs)) [
  | inl nowhere ↦ (ground arith, position-Lacks p rs nowhere)
  | inr (k, e) ↦ ground arith
]

-- The row of the caller: the first usable one, else the first default one, else none.
abbrev pub IsChosen : List SqlWarehouse → List SqlWarehouse → Type 0
IsChosen sorted after =
    IsMarked usable sorted after
    ⊎ ((Lacks usable sorted × IsMarked defaulted sorted after)
        ⊎ (Lacks usable sorted × Lacks defaulted sorted × (after ≡ sorted)))

mark-IsChosen : (sorted : List SqlWarehouse) → IsChosen sorted (mark sorted)
unfolding mark
mark-IsChosen sorted = elim (Option-cases (position usable sorted)) [
  | inr (n, e) ↦ inl (rw e (position-IsMarked usable sorted n e))
  | inl unusable ↦ elim (Option-cases (position defaulted sorted)) [
    | inr (n, e) ↦ inr (
        inl (
          position-Lacks usable sorted unusable,
          rw (unusable, e) (position-IsMarked defaulted sorted n e),
        ))
    | inl no_default ↦ inr (
        inr (
          position-Lacks usable sorted unusable,
          position-Lacks defaulted sorted no_default,
          rw (unusable, no_default),
        ))
  ]
]

place-Lacks :
    (r : SqlWarehouse) (rs : List SqlWarehouse)
    → is_yours r ≡ false
    → Lacks is_yours rs
    → Lacks is_yours (place r rs)
unfolding place
place-Lacks r [] h k = (h, tt)
place-Lacks r (s ∷ rs) h (k, ks) = elim (Bool-cases (comes_first r s)) [
  | inl first ↦ rw first (h, (k, ks))
  | inr later ↦ rw later (k, place-Lacks r rs h ks)
]

module _ {V : Type 0} (api : ValueApi V) (who : Identity) where
  sorted-Lacks : (objects : List V) → Lacks is_yours (sorted_rows (map (row api who) objects))
  unfolding sorted_rows row
  sorted-Lacks [] = tt
  sorted-Lacks (o ∷ objects) = place-Lacks (row api who o) _ refl (sorted-Lacks objects)

  with_yours-Lacks : (rs : List SqlWarehouse) → Lacks is_yours (map (with_yours false) rs)
  with_yours-Lacks [] = tt
  with_yours-Lacks (r ∷ rs) = (refl, with_yours-Lacks rs)

  -- Of the rows that an administrator gets, the first is the administrators' row and it alone is
  -- the caller's. For anybody else exactly the first usable row is the caller's; with no usable
  -- row, the first default one; with neither, none is.
  pub rows-IsChosen :
      (objects : List V)
      → ((who.is_admin ≡ true)
          × ((others : List SqlWarehouse) × (rows api objects who ≡ admin_row ∷ others)
              × Lacks is_yours others))
        ⊎ ((who.is_admin ≡ false)
            × Lacks is_yours (sorted_rows (map (row api who) objects))
            × IsChosen (sorted_rows (map (row api who) objects)) (rows api objects who))
  unfolding rows row
  rows-IsChosen objects =
      let sorted = sorted_rows (map (row api who) objects) in
      elim (Bool-cases (who.is_admin)) [
        | inl admin ↦
            inl (admin, (map (with_yours false) sorted, rw admin, with_yours-Lacks sorted))
        | inr other ↦ inr (other, sorted-Lacks objects, rw other (mark-IsChosen sorted))
      ]
