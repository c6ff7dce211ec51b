-- ===== src/Auth/Refresh/Renewal.antt =====
-- What a successful `refresh_session` says of the new credentials.
use stardelt_nova.Prelude.{ℕ, ◌+◌, String, ◌≡◌, refl, inl, inr, none, some, ◌or_else◌, Option-cases}
use stardelt_nova.Prelude.Results.{map_err-eq-ok, Result, ok, ◌>>=◌, map_err, >>=-eq-ok}
use stardelt_nova.Text.{◌&◌}
use stardelt_nova.Values.{ValueApi}
use stardelt_nova.Identity.{Identity}
use stardelt_nova.Auth.Errors.{auth_message}
use stardelt_nova.Auth.Claims.{ClaimConfig, identity_from_claims}
use stardelt_nova.Auth.Sessions.{Credentials}
use stardelt_nova.Auth.Refresh.{
  TokenResponse, TokenReader, IdentityProvider, from_response, identity_of_refresh, refresh_session,
  refreshed,
}

module _ {V : Type 0} (api : ValueApi V) (reader : TokenReader V) (idp : IdentityProvider V)
    (cfg : ClaimConfig) where
  -- The provider vouches for the person, in the ID token of its answer or else in the access
  -- token.
  pub data IsVouched (answer : TokenResponse V) (who : Identity) : Type 0 where
    by_id_token :
        (token : String) (claims : V)
        → answer.id_token ≡ some token
        → idp.verify_id_token token ≡ ok claims
        → identity_from_claims api claims cfg ≡ ok who
        → IsVouched answer who
    by_access_token :
        (claims : V)
        → answer.id_token ≡ none
        → idp.verify answer.access_token ≡ ok claims
        → identity_from_claims api claims cfg ≡ ok who
        → IsVouched answer who

  -- The credentials that a refresh makes of others.
  pub record IsRenewal (later : ℕ) (old new : Credentials) : Type 0 where
    pub spent : String
    pub answer : TokenResponse V
    pub held : old.tokens.refresh_token ≡ some spent
    pub answered : idp.refresh spent ≡ ok answer
    pub vouched : IsVouched answer new.identity
    pub fresh : new.tokens.access_token ≡ answer.access_token
    pub kept : new.tokens.refresh_token ≡ answer.refresh_token or_else some spent
    pub expires : new.expires_at ≡ later + new.lifetime

  identity_of_refresh-IsVouched :
      (answer : TokenResponse V) (who : Identity)
      → identity_of_refresh api reader idp cfg answer ≡ ok who
      → IsVouched answer who
  unfolding identity_of_refresh
  identity_of_refresh-IsVouched answer who h = elim (Option-cases answer.id_token) [
    | inl absent ↦
        let opened : (map_err (λ e. "refreshed access token rejected: " & auth_message e)
                (idp.verify answer.access_token)
              >>= λ claims. map_err auth_message (identity_from_claims api claims cfg))
            ≡ ok who =
          rw (absent, identity_of_refresh) at h in
        let (claims, verified, named) = >>=-eq-ok _ _ opened in
        by_access_token claims absent (map_err-eq-ok _ _ verified) (map_err-eq-ok _ _ named)
    | inr (token, e) ↦
        let opened : (map_err (λ e. "refreshed ID token rejected: " & auth_message e)
                (idp.verify_id_token token)
              >>= λ claims. map_err auth_message (identity_from_claims api claims cfg))
            ≡ ok who =
          rw (e, identity_of_refresh) at h in
        let (claims, verified, named) = >>=-eq-ok _ _ opened in
        by_id_token token claims e (map_err-eq-ok _ _ verified) (map_err-eq-ok _ _ named)
  ]

  abbrev with_answer : ℕ → Credentials → TokenResponse V → Result String Credentials
  with_answer later old answer = identity_of_refresh api reader idp cfg answer >>= λ who.
      ok (refreshed api reader later old.tokens answer who)

  pub refresh_session-IsRenewal :
      (later : ℕ) (old new : Credentials)
      → refresh_session api reader idp cfg later old ≡ ok new
      → IsRenewal later old new
  unfolding refresh_session from_response
  refresh_session-IsRenewal later old new h = elim (Option-cases old.tokens.refresh_token) [
    | inl absent ↦ cc (rw (absent, refresh_session) at h)
    | inr (spent, e) ↦
        let opened : (map_err auth_message idp.discovery >>= λ (done : Unit {0}).
        idp.refresh spent >>= with_answer later old)
            ≡ ok new =
          rw (e, refresh_session) at h in
        let (_, _, h1) =
          >>=-eq-ok (map_err auth_message idp.discovery)
            (λ (done : Unit {0}). idp.refresh spent >>= with_answer later old) opened in
        let (answer, answered, h2) = >>=-eq-ok (idp.refresh spent) (with_answer later old) h1 in
        let (who, vouched, h3) = >>=-eq-ok _ _ h2 in
        let same : refreshed api reader later old.tokens answer who ≡ new = cc in
        rw (← same) (record {
          spent = spent;
          answer = answer;
          held = e;
          answered = answered;
          vouched = identity_of_refresh-IsVouched answer who vouched;
          fresh = refl;
          kept = rw e refl;
          expires = refl;
        })
  ]
