-- ===== src/Auth/Claims/Laws.antt =====
-- Who is an administrator, and what a token must hold to name a person.
use text.Mathlib.TextEquality.{codes_equal}
use text.Mathlib.TextLemmas.{cons≢nil, head-eq_of_cons-eq, tail-eq_of_cons-eq}
use stardelt_nova.Prelude.{
  String, ◌≡◌, refl, sym, ap, code, ◌∙◌, is_some_and, ◌↔◌, ◌⊎◌, inl, inr, Bool, true, false, ◌||◌,
  Option, none, some, List, [], ◌∷◌, str_eq, eq_iff, arith, Option-cases, Bool-cases, ◌>>=◌,
  >>=-eq-some,
}
use stardelt_nova.Prelude.Results.{Result, ok}
use stardelt_nova.Text.{is_empty, strip_prefix, ◌&◌}
use stardelt_nova.Map.{contains}
use stardelt_nova.Values.{ValueApi}
use stardelt_nova.Identity.{Identity}
use stardelt_nova.Auth.Errors.{AuthError}
use stardelt_nova.Auth.Claims.{
  ClaimConfig, non_empty, is_some_of, has_role, has_group, is_admin, admin_source, claim_str,
  claim_list, groups_overage, claimed_groups, identity_of, identity_from_claims,
}

pub is_some_of_iff : (o : Option String) (s : String) → (is_some_of o s ≡ true) ↔ (o ≡ some s)
unfolding is_some_of
is_some_of_iff none s = (λ h. cc, λ h. cc)
is_some_of_iff (some t) s =
    let (to, from) = eq_iff t s in (λ h. ap some (to h), λ h. from (some_inj h))
  where
    some_inj : {a b : String} → Path (Option String) (some a) (some b) → a ≡ b
    some_inj e = cc

strip_slash-is_some_of :
    (g wanted : String) → is_some_of (strip_prefix "/" g) wanted ≡ str_eq g ("/" & wanted)
unfolding is_some_of strip_prefix
strip_slash-is_some_of String.[] wanted =
    ground (arith, eq_iff "" ("/" & wanted), cons≢nil {x = "/"} {xs = wanted})
strip_slash-is_some_of (String.◌∷◌ c s) wanted = ground (
  arith,
  codes_equal "/" c,
  eq_iff s wanted,
  eq_iff (String.◌∷◌ c s) ("/" & wanted),
  slash_first,
  tail-eq_of_cons-eq {x = c} {y = "/"} {xs = s} {ys = wanted},
)
  where
    slash_first : (String.◌∷◌ c s) ≡ "/" & wanted → code c ≡ 47
    slash_first e = ap code (head-eq_of_cons-eq e)

has_role-contains :
    (roles : List String) (role : String) → has_role roles role ≡ contains roles role
unfolding has_role contains
has_role-contains [] role = refl
has_role-contains (r ∷ roles) role = ground (arith, has_role-contains roles role)

has_group-contains :
    (groups : List String) (wanted : String)
    → has_group groups wanted ≡ (contains groups wanted || contains groups ("/" & wanted))
unfolding has_group contains
has_group-contains [] wanted = refl
has_group-contains (g ∷ groups) wanted =
    ground (arith, strip_slash-is_some_of g wanted, has_group-contains groups wanted)

-- The caller holds the configured role, or is in the configured group, which a token names by
-- itself or by its path from the root.
pub data IsAdministrator (cfg : ClaimConfig) (roles groups : List String) : Type 0 where
  by_role :
      (role : String)
      → cfg.admin_role ≡ some role
      → contains roles role ≡ true
      → IsAdministrator cfg roles groups
  by_group :
      (group : String)
      → cfg.admin_group ≡ some group
      → contains groups group ≡ true
      → IsAdministrator cfg roles groups
  by_path :
      (group : String)
      → cfg.admin_group ≡ some group
      → contains groups ("/" & group) ≡ true
      → IsAdministrator cfg roles groups

is_some_and-some :
    {p : String → Bool} (o : Option String)
    → is_some_and o p ≡ true
    → (s : String) × (o ≡ some s) × (p s ≡ true)
is_some_and-some none h = cc
is_some_and-some (some s) h = (s, refl, h)

of_group :
    (cfg : ClaimConfig) (roles groups : List String) (group : String)
    → cfg.admin_group ≡ some group
    → has_group groups group ≡ true
    → IsAdministrator cfg roles groups
of_group cfg roles groups group e h = elim (Bool-cases (contains groups group)) [
  | inl m ↦ by_group group e m
  | inr m ↦ by_path group e (ground (arith, has_group-contains groups group))
]

pub is_admin_iff :
    (cfg : ClaimConfig) (roles groups : List String)
    → (is_admin roles groups cfg ≡ true) ↔ IsAdministrator cfg roles groups
unfolding is_admin
is_admin_iff cfg roles groups = (to, from)
  where
    to : is_admin roles groups cfg ≡ true → IsAdministrator cfg roles groups
    to h = elim (Bool-cases (is_some_and cfg.admin_role (has_role roles))) [
      | inl held ↦
          let (role, e, m) = is_some_and-some cfg.admin_role held in
          by_role role e (sym (has_role-contains roles role) ∙ m)
      | inr other ↦
          let (group, e, m) =
            is_some_and-some {p = has_group groups} cfg.admin_group (ground arith) in
          of_group cfg roles groups group e m
    ]

    from : IsAdministrator cfg roles groups → is_admin roles groups cfg ≡ true
    from (by_role r e m) = rw e (ground (arith, has_role-contains roles r))
    from (by_group g e m) = rw e (ground (arith, has_group-contains groups g))
    from (by_path g e m) = rw e (ground (arith, has_group-contains groups g))

-- What the admin route reports is the reason of the decision.
pub data IsReason (cfg : ClaimConfig) (roles groups : List String) : String × String → Type 0 where
  role_held :
      (role : String)
      → cfg.admin_role ≡ some role
      → contains roles role ≡ true
      → IsReason cfg roles groups ("role", role)
  group_held :
      (group : String)
      → cfg.admin_group ≡ some group
      → has_group groups group ≡ true
      → IsReason cfg roles groups ("group", group)

pub admin_source-IsReason :
    (cfg : ClaimConfig) (roles groups : List String)
    → is_admin roles groups cfg ≡ true
    → (reason : String × String) × (admin_source cfg roles groups ≡ some reason)
      × IsReason cfg roles groups reason
unfolding is_admin admin_source
admin_source-IsReason cfg roles groups h =
    elim (Bool-cases (is_some_and cfg.admin_role (has_role roles))) [
      | inl held ↦
          let (role, e, m) = is_some_and-some cfg.admin_role held in
          (
            ("role", role),
            rw (e, m) refl,
            role_held role e (sym (has_role-contains roles role) ∙ m),
          )
      | inr other ↦
          let (group, e, m) =
            is_some_and-some {p = has_group groups} cfg.admin_group (ground arith) in
          (("group", group), rw e (ground arith), group_held group e m)
    ]

module _ {V : Type 0} (api : ValueApi V) where
  -- What an accepted set of claims says of the person.
  pub record IsIdentity (claims : V) (cfg : ClaimConfig) (who : Identity) : Type 0 where
    pub subject : claim_str api claims "sub" ≡ some who.sub
    pub named : is_empty who.sub ≡ false
    pub roles : who.roles ≡ claim_list api claims "roles"
    pub decided : (who.is_admin ≡ true) ↔ IsAdministrator cfg who.roles who.groups
    pub groups :
        (groups_overage api claims cfg.group_claim ≡ true × who.groups ≡ [])
        ⊎ (groups_overage api claims cfg.group_claim ≡ false
            × who.groups ≡ claim_list api claims cfg.group_claim)

  claim_str-named :
      (claims : V) (key text : String)
      → claim_str api claims key ≡ some text
      → is_empty text ≡ false
  unfolding claim_str non_empty
  claim_str-named claims key text h =
      let (value, _, rest) = >>=-eq-some (api.get claims key >>= api.as_str) _ h in
      ground (arith, rest)

  groups_cases :
      (claims : V) (cfg : ClaimConfig)
      → ((groups_overage api claims cfg.group_claim ≡ true) × (claimed_groups api claims cfg ≡ []))
        ⊎ ((groups_overage api claims cfg.group_claim ≡ false)
            × (claimed_groups api claims cfg ≡ claim_list api claims cfg.group_claim))
  unfolding claimed_groups
  groups_cases claims cfg = elim (Bool-cases (groups_overage api claims cfg.group_claim)) [
    | inl over ↦ inl (over, rw over refl)
    | inr fits ↦ inr (fits, rw fits refl)
  ]

  identity_of-IsIdentity :
      (claims : V) (cfg : ClaimConfig) (sub : String)
      → claim_str api claims "sub" ≡ some sub
      → IsIdentity claims cfg (identity_of api claims cfg sub)
  unfolding identity_of
  identity_of-IsIdentity claims cfg sub e = record {
    subject = e;
    named = claim_str-named claims "sub" sub e;
    roles = refl;
    decided = is_admin_iff cfg (claim_list api claims "roles") (claimed_groups api claims cfg);
    groups = groups_cases claims cfg;
  }

  -- An identity made of claims has the subject of the claims, which is not blank, the claimed
  -- roles, and the claimed groups, or no group when the token says that there are too many; and it
  -- is an administrator exactly when the configured role is among the roles or the configured
  -- group among the groups, by name or with a leading slash.
  pub identity_from_claims-IsIdentity :
      (claims : V) (cfg : ClaimConfig) (who : Identity)
      → identity_from_claims api claims cfg ≡ ok who
      → IsIdentity claims cfg who
  unfolding identity_from_claims
  identity_from_claims-IsIdentity claims cfg who h =
      elim (Option-cases (claim_str api claims "sub")) [
        | inl missing ↦ cc (rw (missing, identity_from_claims) at h)
        | inr (sub, e) ↦
            let opened : Path (Result AuthError Identity) (ok (identity_of api claims cfg sub))
                (ok who) =
              rw (e, identity_from_claims) at h in
            let same : identity_of api claims cfg sub ≡ who = cc in
            rw (← same) (identity_of-IsIdentity claims cfg sub e)
      ]
