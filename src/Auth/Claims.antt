-- ===== src/Auth/Claims.antt =====
-- From the claims of a token to the signed-in person: `ClaimConfig` and `identity_from_claims` of
-- backend/src/auth.rs.
pub mod Laws
mod Tests
use stardelt_nova.Prelude.{
  String, Bool, true, false, ◌||◌, Option, none, some, ◌>>=◌, ◌or_else◌, unwrap_or, is_some_and,
  List, [], ◌∷◌, any, is_some, if◌then◌else◌, str_eq,
}
use stardelt_nova.Prelude.Results.{Result, ok, err}
use stardelt_nova.Text.{is_empty, trim, strip_prefix}
use stardelt_nova.Values.{ValueApi}
use stardelt_nova.Identity.{Identity}
use stardelt_nova.Auth.Errors.{AuthError, invalid_token}

pub record ClaimConfig : Type 0 where
  pub group_claim : String
  pub admin_group : Option String
  pub admin_role : Option String

-- `filter(|s| !s.is_empty())`.
unfoldable pub non_empty : String → Option String
non_empty s = if is_empty s then none else some s

-- `o == Some(s)`.
unfoldable pub is_some_of : Option String → String → Bool
is_some_of none s = false
is_some_of (some t) s = str_eq t s

unfoldable pub has_role : List String → String → Bool
has_role roles role = any (λ r. str_eq r role) roles

-- The test is on a group by its name, or by its path from the root.
unfoldable pub has_group : List String → String → Bool
unfolding is_some_of
has_group groups wanted =
    any (λ g. str_eq g wanted || is_some_of (strip_prefix "/" g) wanted) groups

unfoldable pub is_admin : List String → List String → ClaimConfig → Bool
unfolding has_role has_group
is_admin roles groups cfg =
    is_some_and cfg.admin_role (has_role roles) || is_some_and cfg.admin_group (has_group groups)

-- `Some((by, value))` when the test holds of the configured value.
abbrev pub named {ℓ} : {A : Type ℓ} → String → Option A → (A → Bool) → Option (String × A)
named by none p = none
named by (some a) p = if p a then some (by, a) else none

unfoldable pub admin_source : ClaimConfig → List String → List String → Option (String × String)
unfolding has_role has_group
admin_source cfg roles groups =
    named "role" cfg.admin_role (has_role roles)
    or_else named "group" cfg.admin_group (has_group groups)
    or_else named "role" cfg.admin_role (λ _. true)
    or_else named "group" cfg.admin_group (λ _. true)

module _ {V : Type 0} (api : ValueApi V) where
  unfoldable pub claim_str : V → String → Option String
  unfolding non_empty
  claim_str claims key = api.get claims key >>= api.as_str >>= λ s. non_empty (trim s)

  -- `filter_map(Value::as_str)`.
  unfoldable pub texts : List V → List String
  texts [] = []
  texts (v ∷ vs) = elim (api.as_str v) [ none ↦ texts vs | some s ↦ s ∷ texts vs ]

  unfoldable pub claim_list : V → String → List String
  unfolding texts
  claim_list claims key = elim (api.get claims key) [
    | none ↦ []
    | some value ↦ elim (api.as_array value) [
      | some items ↦ texts items
      | none ↦ elim (api.as_str value) [ none ↦ [] | some s ↦ if is_empty s then [] else s ∷ [] ]
    ]
  ]

  abbrev pub is_true : Option Bool → Bool
  is_true none = false
  is_true (some b) = b

  unfoldable pub groups_overage : V → String → Bool
  unfolding is_some_of
  groups_overage claims group_claim =
      let names = api.get claims "_claim_names" in
      let named_in = λ (k : String). is_some (names >>= λ n. api.get n k) in
      let flag = api.get claims "hasgroups" in
      named_in group_claim
      || named_in "groups"
      || is_true (flag >>= api.as_bool)
      || is_some_of (flag >>= api.as_str) "true"

  unfoldable pub claimed_groups : V → ClaimConfig → List String
  unfolding groups_overage claim_list
  claimed_groups claims cfg =
      if groups_overage claims cfg.group_claim then [] else claim_list claims cfg.group_claim

  -- The body of `identity_from_claims` behind the subject.
  unfoldable pub identity_of : V → ClaimConfig → String → Identity
  unfolding claim_str claim_list groups_overage claimed_groups is_admin
  identity_of claims cfg sub =
      let email = claim_str claims "email" in
      let name = claim_str claims "name" in
      let groups = claimed_groups claims cfg in
      let roles = claim_list claims "roles" in
      record {
        sub = sub;
        display_name = unwrap_or sub (
            claim_str claims "preferred_username"
            or_else email
            or_else claim_str claims "upn"
            or_else name);
        email = email;
        name = name;
        groups = groups;
        roles = roles;
        groups_overage = groups_overage claims cfg.group_claim;
        is_admin = is_admin roles groups cfg;
      }

  unfoldable pub identity_from_claims : V → ClaimConfig → Result AuthError Identity
  unfolding claim_str identity_of
  identity_from_claims claims cfg = elim (claim_str claims "sub") [
    | none ↦ err (invalid_token "missing sub")
    | some sub ↦ ok (identity_of claims cfg sub)
  ]
