-- ===== src/Auth/Keys/Laws.antt =====
-- How often the keys are fetched, and which keys a token may be signed with.
use stardelt_nova.Prelude.{
  ℕ, ◌-◌, ◌≤◌, String, ◌≡◌, refl, ◌⊎◌, inl, inr, Bool, true, false, Option, none, some, List, [],
  ◌∷◌, if◌then◌else◌, arith, Bool-cases,
}
use stardelt_nova.Prelude.Results.{Result, ok, err, Result-cases}
use stardelt_nova.Values.{ValueApi}
use stardelt_nova.Auth.Errors.{AuthError}
use stardelt_nova.Auth.Tokens.{JwtApi, Expect, verify_jwt}
use stardelt_nova.Auth.Tokens.Laws.{IsAccepted, verify_jwt-IsAccepted}
use stardelt_nova.Auth.Keys.{
  jwks_min_refresh, JwksCache, Moment, is_young, is_settled, fetched, provider_keys, is_unknown_key,
  verify_against, verify_with,
}

module _ {Jwk : Type 0} where
  -- The moments of a run of calls in which a fetch replaces the keys.
  abbrev noted :
      Moment Jwk → Bool → Result AuthError (List Jwk) → List (Moment Jwk) → List (Moment Jwk)
  noted m true answer ms = ms
  noted m false (ok ks) ms = m ∷ ms
  noted m false (err e) ms = ms

  unfoldable pub fetches : List (Bool × Moment Jwk) → JwksCache Jwk → List (Moment Jwk)
  unfolding is_settled provider_keys
  fetches [] cache = []
  fetches ((refresh, m) ∷ calls) cache =
      noted m (is_settled refresh m cache) m.answer
        (fetches calls (provider_keys refresh m cache).0)

  -- From one fetch to the start of the next at least 30 seconds go by.
  abbrev pub IsSpaced : Option ℕ → List (Moment Jwk) → Type 0
  IsSpaced last [] = Unit
  IsSpaced none (m ∷ ms) = IsSpaced (some m.answered) ms
  IsSpaced (some at) (m ∷ ms) = (jwks_min_refresh ≤ m.locked - at) × IsSpaced (some m.answered) ms

  IsSpaced-by :
      (last : Option ℕ) (m : Moment Jwk) (ms : List (Moment Jwk))
      → is_young m.locked last ≡ false
      → IsSpaced (some m.answered) ms
      → IsSpaced last (m ∷ ms)
  IsSpaced-by none m ms h rest = rest
  IsSpaced-by (some at) m ms h rest = (ground (arith, h), rest)

  noted-IsSpaced :
      (later : JwksCache Jwk → List (Moment Jwk)) (m : Moment Jwk) (cache : JwksCache Jwk)
      (settled : Bool) (answer : Result AuthError (List Jwk))
      → (settled ≡ false → is_young m.locked cache.fetched_at ≡ false)
      → ((c : JwksCache Jwk) → IsSpaced c.fetched_at (later c))
      → IsSpaced cache.fetched_at (
          noted m settled answer
            (later (if settled then (cache, ok cache.keys) else fetched m cache answer).0))
  noted-IsSpaced later m cache true answer old rest = rest cache
  noted-IsSpaced later m cache false (err e) old rest = rest cache
  noted-IsSpaced later m cache false (ok ks) old rest =
      IsSpaced-by cache.fetched_at m _ (old refl) (rest (fetched m cache (ok ks)).0)

  -- Over any run of calls of `keys`, from one successful fetch (or from that of the cache at the
  -- start) to the start of the next successful one at least 30 seconds go by.
  pub fetches-IsSpaced :
      (calls : List (Bool × Moment Jwk)) (cache : JwksCache Jwk)
      → IsSpaced cache.fetched_at (fetches calls cache)
  unfolding fetches is_settled provider_keys
  fetches-IsSpaced [] cache = tt
  fetches-IsSpaced ((refresh, m) ∷ calls) cache =
      noted-IsSpaced (fetches calls) m cache (is_settled refresh m cache) m.answer
        (λ h. ground (arith, h)) (fetches-IsSpaced calls)

  -- The keys that a call answers with, and those that it leaves, were there or have been fetched.
  answered_keys :
      (refresh : Bool) (m : Moment Jwk) (cache : JwksCache Jwk) (ks : List Jwk)
      → (provider_keys refresh m cache).1 ≡ ok ks
      → ((cache.keys ≡ ks) ⊎ (m.answer ≡ ok ks)) × ((provider_keys refresh m cache).0.keys ≡ ks)
  unfolding provider_keys
  answered_keys refresh m cache ks h = elim (Bool-cases (is_settled refresh m cache)) [
    | inl settled ↦
        let same : cache.keys ≡ ks = cc (rw (provider_keys, settled) at h) in
        (inl same, rw (provider_keys, settled) same)
    | inr due ↦ elim (Result-cases m.answer) [
      | inl (e, failed) ↦ cc (rw (provider_keys, due, failed) at h)
      | inr (new, answered) ↦
          let same : new ≡ ks = cc (rw (provider_keys, due, answered) at h) in
          rw (← same) (inr answered, rw (provider_keys, due, answered) refl)
    ]
  ]

module _ {V Jwk DecodingKey : Type 0} (jwt : JwtApi V Jwk DecodingKey) (api : ValueApi V)
    (token : String) (expect : Expect) where
  -- The keys were in the cache, or one of the two calls fetched them.
  pub data IsKnown (first again : Moment Jwk) (cache : JwksCache Jwk) (keys : List Jwk)
      : Type 0 where
    cached : cache.keys ≡ keys → IsKnown first again cache keys
    fetched_first : first.answer ≡ ok keys → IsKnown first again cache keys
    fetched_again : again.answer ≡ ok keys → IsKnown first again cache keys

  first-IsKnown :
      (first again : Moment Jwk) (cache : JwksCache Jwk) (ks : List Jwk)
      → (cache.keys ≡ ks) ⊎ (first.answer ≡ ok ks)
      → IsKnown first again cache ks
  first-IsKnown first again cache ks (inl same) = cached same
  first-IsKnown first again cache ks (inr new) = fetched_first new

  second-IsKnown :
      (first again : Moment Jwk) (cache middle : JwksCache Jwk) (ks : List Jwk)
      → middle.keys ≡ ks
      → (cache.keys ≡ ks) ⊎ (first.answer ≡ ok ks)
      → (claims : V)
      → verify_against jwt api token expect (provider_keys true again middle).1 ≡ ok claims
      → (keys : List Jwk) × IsKnown first again cache keys
        × (verify_jwt jwt api token keys expect ≡ ok claims)
        × IsAccepted jwt api token keys expect claims
  second-IsKnown first again cache middle ks left source claims h =
      elim (Result-cases (provider_keys true again middle).1) [
        | inl (e, failed) ↦ cc (rw failed at h)
        | inr (new, found) ↦
            let passed : verify_jwt jwt api token new expect ≡ ok claims = rw found at h in
            let accepted = verify_jwt-IsAccepted jwt api token new expect claims passed in
            elim (answered_keys true again middle new found).0 [
              | inl same ↦ (
                new,
                rw (← same, left) (first-IsKnown first again cache ks source),
                passed,
                accepted,
              )
              | inr answered ↦ (new, fetched_again answered, passed, accepted)
            ]
      ]

  -- A token that `verify_with` accepts is one that `verify_jwt` accepts with keys that were in the
  -- cache or that one of the at most two calls of `keys` fetched, and it is signed with one of
  -- these keys.
  pub verify_with-IsAccepted :
      (first again : Moment Jwk) (cache : JwksCache Jwk) (claims : V)
      → (verify_with jwt api token expect first again cache).1 ≡ ok claims
      → (keys : List Jwk) × IsKnown first again cache keys
        × (verify_jwt jwt api token keys expect ≡ ok claims)
        × IsAccepted jwt api token keys expect claims
  unfolding verify_with
  verify_with-IsAccepted first again cache claims h =
      elim (Result-cases (provider_keys false first cache).1) [
        | inl (e, failed) ↦ cc (rw (verify_with, failed) at h)
        | inr (ks, found) ↦
            let (source, left) = answered_keys false first cache ks found in
            elim (Bool-cases (is_unknown_key (verify_jwt jwt api token ks expect))) [
              | inl stray ↦
                  let second_try : verify_against jwt api token expect
                        (provider_keys true again (provider_keys false first cache).0).1
                      ≡ ok claims =
                    rw (verify_with, found, stray) at h in
                  second-IsKnown first again cache (provider_keys false first cache).0 ks left
                    source claims second_try
              | inr fine ↦
                  let passed : verify_jwt jwt api token ks expect ≡ ok claims =
                    rw (verify_with, found, fine) at h in
                  (
                    ks,
                    first-IsKnown first again cache ks source,
                    passed,
                    verify_jwt-IsAccepted jwt api token ks expect claims passed,
                  )
            ]
      ]
