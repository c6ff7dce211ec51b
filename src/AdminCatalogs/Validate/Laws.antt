-- ===== src/AdminCatalogs/Validate/Laws.antt =====
-- Which changes are accepted.
use stardelt_nova.Prelude.{
  ◌≤◌, String, ◌≡◌, refl, ◌↔◌, Bool, true, false, not, List, [], ◌∷◌, leb, leb→le, length, All,
  arith,
}
use stardelt_nova.Prelude.Results.{ok, guarded_iff}
use stardelt_nova.Text.{is_empty}
use stardelt_nova.Map.{contains as has_text}
use stardelt_nova.Names.{group_ok}
use stardelt_nova.AdminCatalogs.Types.{CatalogGrant, CatalogAccessUpdate, verbs}
use stardelt_nova.AdminCatalogs.Pairs.{Pair, pair_of, contains}
use stardelt_nova.AdminCatalogs.Validate.{check_grants, validate_access}

-- A grant names a group and one of the five verbs.
abbrev pub IsGrant : CatalogGrant → Type 0
IsGrant grant = (group_ok grant.group ≡ true) × (has_text verbs grant.verb ≡ true)

-- No pair of a group and a verb stands twice, nor among those seen before.
abbrev pub Apart : List Pair → List CatalogGrant → Type 0
Apart seen [] = Unit
Apart seen (grant ∷ grants) =
    (contains seen (pair_of grant) ≡ false) × Apart (pair_of grant ∷ seen) grants

pub record IsAcceptable (update : CatalogAccessUpdate) : Type 0 where
  pub owner : group_ok update.owner ≡ true
  pub few : length update.grants ≤ 50
  pub grants : All IsGrant update.grants
  pub apart : Apart [] update.grants

not_iff : (b : Bool) → (not b ≡ true) ↔ (b ≡ false)
not_iff true = (λ h. cc, λ h. cc)
not_iff false = (λ h. refl, λ h. refl)

-- A valid group name is not empty.
named : (s : String) → group_ok s ≡ true → not (is_empty s) ≡ true
unfolding group_ok
named s h = ground arith

check_grants-IsGrant :
    (seen : List Pair) (grants : List CatalogGrant)
    → check_grants seen grants ≡ ok tt
    → All IsGrant grants × Apart seen grants
unfolding check_grants
check_grants-IsGrant seen [] h = (tt, tt)
check_grants-IsGrant seen (grant ∷ grants) h =
    let (group, h1) = (guarded_iff (group_ok grant.group) _ _).0 h in
    let (verb, h2) = (guarded_iff (has_text verbs grant.verb) _ _).0 h1 in
    let (new, h3) = (guarded_iff (not (contains seen (pair_of grant))) _ _).0 h2 in
    let (all, apart) = check_grants-IsGrant (pair_of grant ∷ seen) grants h3 in
    (((group, verb), all), ((not_iff _).0 new, apart))

check_grants_ok :
    (seen : List Pair) (grants : List CatalogGrant)
    → All IsGrant grants
    → Apart seen grants
    → check_grants seen grants ≡ ok tt
unfolding check_grants
check_grants_ok seen [] _ _ = refl
check_grants_ok seen (grant ∷ grants) ((group, verb), all) (new, apart) =
    rw (group, verb, new) (check_grants_ok (pair_of grant ∷ seen) grants all apart)

-- A change of access is accepted exactly when its owner is a valid group, it has at most 50 grants,
-- each of a valid group and one of the five verbs, and no group has the same verb twice.
pub validate_access_iff :
    (update : CatalogAccessUpdate) → (validate_access update ≡ ok tt) ↔ IsAcceptable update
unfolding validate_access
validate_access_iff update = (to, from)
  where
    to : validate_access update ≡ ok tt → IsAcceptable update
    to h =
        let (_, h1) = (guarded_iff (not (is_empty update.owner)) _ _).0 h in
        let (owner, h2) = (guarded_iff (group_ok update.owner) _ _).0 h1 in
        let (few, h3) = (guarded_iff (leb (length update.grants) 50) _ _).0 h2 in
        let (all, apart) = check_grants-IsGrant [] update.grants h3 in
        record {
          owner = owner;
          few = leb→le (length update.grants) 50 few;
          grants = all;
          apart = apart;
        }

    from : IsAcceptable update → validate_access update ≡ ok tt
    from a =
        let few = a.few in
        let short : leb (length update.grants) 50 ≡ true = ground (arith, few) in
        rw (named update.owner a.owner, a.owner, short)
          (check_grants_ok [] update.grants a.grants a.apart)
