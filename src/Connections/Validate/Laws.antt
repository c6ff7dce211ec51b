-- ===== src/Connections/Validate/Laws.antt =====
-- What a request that passes the validation is.
use stardelt_nova.Prelude.{
  ◌≤◌, ◌≡◌, refl, ◌≢◌, ◌↔◌, String, true, false, Option, none, some, List, [], ◌∷◌, length, All,
  arith, all,
}
use stardelt_nova.Prelude.Results.{ok, each, each_iff}
use stardelt_nova.Text.{byte_len}
use stardelt_nova.Map.{keys, contains}
use stardelt_nova.Names.{valid_connection_name, key_ok, setting_name_ok, group_ok}
use stardelt_nova.Connections.Types.{
  Scope, personal, group, managed, NewConnection, max_value_bytes, max_keys, max_settings,
  max_setting_bytes, types,
}
use stardelt_nova.Connections.Validate.{
  secret_like, refresh_rule, scope_rules, check_setting, check_secret, type_rules, validate_new,
}
use stardelt_nova.Connections.Validate.Interval.{not-is_empty, HasInterval, interval_iff}
use stardelt_nova.Connections.Validate.Needs.{HasNeeds, type_rules-HasNeeds, of_HasNeeds}

-- A setting: its name is well formed and names no secret, and its value is short.
abbrev pub IsSetting : String × String → Type 0
IsSetting (k, v) =
    (setting_name_ok k ≡ true) × (secret_like k ≡ false) × (byte_len v ≤ max_setting_bytes)

-- A secret field: its name is well formed, and its value is there and short.
abbrev pub IsSecret : String × String → Type 0
IsSecret (k, v) = (key_ok k ≡ true) × (v ≢ "") × (byte_len v ≤ max_value_bytes)

-- Who owns the connection and who may use it, for each scope.
abbrev pub HasScope : Scope → Option String → List String → Type 0
HasScope personal owner_group usable_by = (owner_group ≡ none) × (usable_by ≡ [])
HasScope group owner_group usable_by =
    (g : String) × (owner_group ≡ some g) × (group_ok g ≡ true) × (usable_by ≡ [])
HasScope managed owner_group usable_by =
    (owner_group ≡ none)
    × (usable_by ≢ [])
    × (length usable_by ≤ 20)
    × (all group_ok usable_by ≡ true)

pub record IsAcceptable (req : NewConnection) : Type 0 where
  pub name : valid_connection_name req.name ≡ true
  pub kind : contains types req.kind ≡ true
  pub scope : HasScope req.scope req.owner_group req.usable_by
  pub few_settings : length req.config ≤ max_settings
  pub settings : All IsSetting req.config
  pub some_secret : 1 ≤ length req.secret
  pub few_secrets : length req.secret ≤ max_keys
  pub secrets : All IsSecret req.secret
  pub interval : HasInterval req.refresh_interval
  pub needs : HasNeeds req.kind req.config (keys req.secret)

check_setting_iff : (e : String × String) → (check_setting e ≡ ok tt) ↔ IsSetting e
unfolding check_setting
check_setting_iff (k, v) = ground arith

check_secret_iff : (e : String × String) → (check_secret e ≡ ok tt) ↔ IsSecret e
unfolding check_secret
check_secret_iff (k, v) = ground (arith, not-is_empty v)

scope_rules_iff :
    (scope : Scope) (owner_group : Option String) (usable_by : List String)
    → (scope_rules scope owner_group usable_by ≡ ok tt) ↔ HasScope scope owner_group usable_by
unfolding scope_rules
scope_rules_iff personal none [] = ground arith
scope_rules_iff personal none (g ∷ gs) = ground arith
scope_rules_iff personal (some o) gs = ground arith
scope_rules_iff group none gs = (λ h. cc, λ h. cc (h.1))
scope_rules_iff group (some o) [] =
    (λ h. (o, refl, ground arith, refl), λ (g, e, k, n). ground arith)
scope_rules_iff group (some o) (g ∷ gs) = (λ h. ground arith, λ (g', e, k, n). cc)
scope_rules_iff managed none [] = ground arith
scope_rules_iff managed none (g ∷ gs) = ground arith
scope_rules_iff managed (some o) gs = ground arith

All-iff {ℓ κ μ} :
    {A : Type ℓ} (P : A → Type κ) (Q : A → Type μ) (f : (a : A) → P a ↔ Q a) (xs : List A)
    → All P xs ↔ All Q xs
All-iff P Q f [] = (λ _. tt, λ _. tt)
All-iff P Q f (x ∷ xs) =
    let (to, from) = All-iff P Q f xs in (λ h. ((f x).0 h.0, to h.1), λ h. ((f x).1 h.0, from h.1))

module _ (req : NewConnection) where
  checks_of_acceptable :
      IsAcceptable req
      → (scope_rules req.scope req.owner_group req.usable_by ≡ ok tt)
        × (each check_setting req.config ≡ ok tt)
        × (each check_secret req.secret ≡ ok tt)
        × (refresh_rule req.refresh_interval ≡ true)
        × (type_rules req.kind req.config (keys req.secret) ≡ ok tt)
  checks_of_acceptable a = (
    (scope_rules_iff _ _ _).1 a.scope,
    (each_iff _ _).1 ((All-iff _ _ check_setting_iff _).1 a.settings),
    (each_iff _ _).1 ((All-iff _ _ check_secret_iff _).1 a.secrets),
    (interval_iff req.refresh_interval).1 a.interval,
    of_HasNeeds req.kind req.config (keys req.secret) a.needs,
  )

  accepted : validate_new req ≡ ok tt → IsAcceptable req
  unfolding validate_new
  accepted h = record {
    name = ground arith;
    kind = ground arith;
    scope = (scope_rules_iff _ _ _).0 (ground arith);
    few_settings = ground arith;
    settings = (All-iff _ _ check_setting_iff _).0 ((each_iff _ _).0 (ground arith));
    some_secret = ground arith;
    few_secrets = ground arith;
    secrets = (All-iff _ _ check_secret_iff _).0 ((each_iff _ _).0 (ground arith));
    interval = (interval_iff _).0 (ground arith);
    needs = type_rules-HasNeeds req.kind req.config (keys req.secret) (ground arith);
  }

  acceptable : IsAcceptable req → validate_new req ≡ ok tt
  unfolding validate_new
  acceptable a = let (s, c, f, r, n) = checks_of_acceptable a in ground arith

-- A request is accepted exactly when it is acceptable: the name, the type, the owner for the
-- scope, the settings, the secret fields, the refresh interval and what the type needs.
pub validate_new_iff : (req : NewConnection) → (validate_new req ≡ ok tt) ↔ IsAcceptable req
validate_new_iff req = (accepted req, acceptable req)
