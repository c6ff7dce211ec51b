-- ===== src/Connections/Rotation/Fields.antt =====
-- The fields of ascending maps: when one map holds no field that another does not.
use stardelt_nova.Prelude.{
  suc, ◌≤◌, ◌≡◌, refl, ap, inl, inr, String, true, false, List, [], ◌∷◌, length, All, arith, str_eq,
  eq_iff, Bool-cases,
}
use stardelt_nova.Prelude.Results.{ok}
use stardelt_nova.Text.Order.{cmp_refl, IsBefore, IsBefore-trans}
use stardelt_nova.Map.{
  Map, get, contains_key, contains, keys, extend, IsAscending, get-extend, extend-IsAscending,
}
use stardelt_nova.Connections.Rotation.{check_rotated}

-- The members of one ascending list, when another holds them all.
unfoldable pub Within : List String → List String → Type 0
Within xs ys = (k : String) → contains xs k ≡ true → contains ys k ≡ true

contains_of_after :
    (k : String) (ks : List String) → All (λ j. IsBefore k j) ks → contains ks k ≡ false
unfolding contains
contains_of_after k [] _ = refl
contains_of_after k (j ∷ js) (h, hs) =
    ground (arith, eq_iff j k, cmp_refl k, contains_of_after k js hs)

pub contains-keys : (m : Map String) (k : String) → contains (keys m) k ≡ contains_key k m
unfolding contains contains_key get
contains-keys [] k = refl
contains-keys ((j, v) ∷ m) k = ground (arith, contains-keys m k)

after_of_contains :
    (y k : String) (ys : List String)
    → All (λ j. IsBefore y j) ys
    → contains ys k ≡ true
    → IsBefore y k
unfolding contains
after_of_contains y k [] _ h = cc
after_of_contains y k (j ∷ js) (p, ps) h = elim (Bool-cases (str_eq j k)) [
  | inl same ↦ rw (← (eq_iff j k).0 same) p
  | inr differs ↦ after_of_contains y k js ps (ground arith)
]

not-IsBefore_both : (x y : String) → IsBefore x y → ¬ IsBefore y x
not-IsBefore_both x y h k = ground (arith, IsBefore-trans x y x h k, cmp_refl x)

Within-nil : (x : String) (xs : List String) → ¬ Within (x ∷ xs) []
unfolding contains Within
Within-nil x xs w = cc (w x (ground (arith, eq_iff x x)))

drop_both :
    (x y : String) (xs ys : List String)
    → All (λ j. IsBefore x j) xs
    → Within (x ∷ xs) (y ∷ ys)
    → str_eq x y ≡ true
    → Within xs ys
unfolding contains Within
drop_both x y xs ys px w same k h =
    ground (arith, w k, eq_iff x y, eq_iff x k, eq_iff y k, contains_of_after x xs px)

drop_first :
    (x y : String) (xs ys : List String)
    → All (λ j. IsBefore x j) xs
    → All (λ j. IsBefore y j) ys
    → Within (x ∷ xs) (y ∷ ys)
    → str_eq x y ≡ false
    → Within (x ∷ xs) ys
unfolding contains Within
drop_first x y xs ys px qy w differs k h =
    let there : contains ys x ≡ true = ground (arith, w x, eq_iff x x, eq_iff x y, eq_iff y x) in
    let before : IsBefore y x = after_of_contains y x ys qy there in
    elim (Bool-cases (str_eq y k)) [
      | inl same ↦
          let late : contains xs y ≡ true = ground (arith, eq_iff y k, eq_iff x k, eq_iff x y) in
          absurd (not-IsBefore_both y x before (after_of_contains x y xs px late))
      | inr other ↦ ground (arith, w k)
    ]

-- An ascending list within another is no longer, and is the other when it is as long.
pub length-Within :
    (xs ys : List String)
    → IsAscending xs
    → IsAscending ys
    → Within xs ys
    → (length xs ≤ length ys) × (length xs ≡ length ys → xs ≡ ys)
length-Within [] [] p q w = (omega arith, λ _. refl)
length-Within [] (y ∷ ys) p q w = (omega arith, λ e. absurd (omega arith))
length-Within (x ∷ xs) [] p q w = absurd (Within-nil x xs w)
length-Within (x ∷ xs) (y ∷ ys) (px, p) (qy, q) w = elim (Bool-cases (str_eq x y)) [
  | inl same ↦
      let (le, eq) = length-Within xs ys p q (drop_both x y xs ys px w same) in
      (omega (arith, le), λ e. cc (eq (omega arith), (eq_iff x y).0 same))
  | inr differs ↦
      let (le, eq) = length-Within (x ∷ xs) ys (px, p) q (drop_first x y xs ys px qy w differs) in
      (omega (arith, le), λ e. absurd (omega (arith, le)))
]

pub length-keys : (m : Map String) → length (keys m) ≡ length m
length-keys [] = refl
length-keys (e ∷ m) = ap suc (length-keys m)

-- Every rotated field is a field of the connection.
pub patch-Within :
    (fields : List String) (patch : Map String)
    → All (λ e. check_rotated fields e ≡ ok tt) patch
    → Within (keys patch) fields
unfolding check_rotated contains Within
patch-Within fields [] _ k h = cc
patch-Within fields ((j, v) ∷ patch) (c, cs) k h = elim (Bool-cases (str_eq j k)) [
  | inl same ↦ ground (arith, eq_iff j k, c)
  | inr differs ↦ patch-Within fields patch cs k (ground arith)
]

same_fields :
    (xs ys : List String) → IsAscending xs → IsAscending ys → Within xs ys → Within ys xs → xs ≡ ys
same_fields xs ys p q v w =
    let (le, eq) = length-Within xs ys p q v in
    let (ge, _) = length-Within ys xs q p w in eq (omega arith)

pub keys-extend :
    (current patch : Map String)
    → IsAscending (keys current)
    → IsAscending (keys patch)
    → Within (keys patch) (keys current)
    → keys (extend current patch) ≡ keys current
unfolding Within contains_key
keys-extend current patch p q w =
    same_fields _ _ (extend-IsAscending current patch p) p
      (λ k h. ground (
        arith,
        contains-keys (extend current patch) k,
        contains-keys current k,
        contains-keys patch k,
        get-extend k current patch q,
        w k,
      ))
      (λ k h. ground (
        arith,
        contains-keys (extend current patch) k,
        contains-keys current k,
        contains-keys patch k,
        get-extend k current patch q,
      ))
