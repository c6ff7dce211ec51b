-- ===== src/Auth/Keys.antt =====
-- The signing keys of the identity provider and when they are fetched: `JwksCache`,
-- `Provider::keys` and `Provider::verify_with` of backend/src/auth.rs.
pub mod Laws
mod Tests
use stardelt_nova.Prelude.{
  ℕ, ◌-◌, ◌*◌, String, Bool, true, false, not, ◌&&◌, ◌||◌, is_some_and, Option, none, some, List,
  [], ◌∷◌, ltb, if◌then◌else◌,
}
use stardelt_nova.Prelude.Results.{Result, ok, err}
use stardelt_nova.Values.{ValueApi}
use stardelt_nova.Auth.Errors.{AuthError, unknown_key}
use stardelt_nova.Auth.Sessions.{second}
use stardelt_nova.Auth.Tokens.{JwtApi, Expect, verify_jwt}

abbrev pub jwks_min_refresh : ℕ
jwks_min_refresh = 30 * second

pub record JwksCache (Jwk : Type 0) : Type 0 where
  pub keys : List Jwk
  pub fetched_at : Option ℕ

-- What happens around one call of `keys`: the times at which it reads the cache and at which it
-- has the lock to write, the answer of `fetch_jwks`, and the time behind that.
pub record Moment (Jwk : Type 0) : Type 0 where
  pub asked : ℕ
  pub locked : ℕ
  pub answer : Result AuthError (List Jwk)
  pub answered : ℕ

abbrev pub is_young : ℕ → Option ℕ → Bool
is_young now fetched_at = is_some_and fetched_at (λ at. ltb (now - at) jwks_min_refresh)

module _ {Jwk : Type 0} where
  -- The cache is enough at the first look.
  unfoldable pub serves_cached : Bool → Moment Jwk → JwksCache Jwk → Bool
  serves_cached refresh m cache =
      is_some_and cache.fetched_at (λ at. not refresh || ltb (m.asked - at) jwks_min_refresh)

  -- No fetch is made.
  unfoldable pub is_settled : Bool → Moment Jwk → JwksCache Jwk → Bool
  unfolding serves_cached
  is_settled refresh m cache = serves_cached refresh m cache || is_young m.locked cache.fetched_at

  abbrev pub fetched :
      Moment Jwk
      → JwksCache Jwk
      → Result AuthError (List Jwk)
      → JwksCache Jwk × Result AuthError (List Jwk)
  fetched m cache (err e) = (cache, err e)
  fetched m cache (ok ks) = (record { keys = ks; fetched_at = some m.answered }, ok ks)

  unfoldable pub provider_keys :
      Bool → Moment Jwk → JwksCache Jwk → JwksCache Jwk × Result AuthError (List Jwk)
  unfolding is_settled
  provider_keys refresh m cache =
      if is_settled refresh m cache then (cache, ok cache.keys) else fetched m cache m.answer

abbrev pub is_unknown_key {ℓ} : {A : Type ℓ} → Result AuthError A → Bool
is_unknown_key (err unknown_key) = true
is_unknown_key _ = false

module _ {V Jwk DecodingKey : Type 0} (jwt : JwtApi V Jwk DecodingKey) (api : ValueApi V)
    (token : String) (expect : Expect) where
  abbrev pub verify_against : Result AuthError (List Jwk) → Result AuthError V
  verify_against (err e) = err e
  verify_against (ok keys) = verify_jwt jwt api token keys expect

  unfoldable pub verify_with :
      Moment Jwk → Moment Jwk → JwksCache Jwk → JwksCache Jwk × Result AuthError V
  unfolding provider_keys
  verify_with first again cache =
      let (cached, keys) = provider_keys false first cache in
      let (renewed, new_keys) = provider_keys true again cached in
      elim keys [
        | err e ↦ (cached, err e)
        | ok ks ↦
            let answer = verify_jwt jwt api token ks expect in
            if is_unknown_key answer then (renewed, verify_against new_keys) else (cached, answer)
      ]
