-- ===== src/Auth/Refresh/Laws.antt =====
-- What a request of a signed-in browser sees, and what a failed renewal leaves.
use stardelt_nova.Prelude.{
  ℕ, ◌<◌, String, ◌≡◌, refl, sym, ◌∙◌, ◌⊎◌, inl, inr, true, false, Option, none, some, ltb, eq_iff,
  arith, Bool-cases,
}
use stardelt_nova.Prelude.Results.{Result, ok, err, Result-cases}
use stardelt_nova.Map.{get}
use stardelt_nova.Values.{ValueApi}
use stardelt_nova.Auth.Errors.{AuthError, unauthenticated}
use stardelt_nova.Auth.Claims.{ClaimConfig}
use stardelt_nova.Auth.Table.{keep_if, get-remove}
use stardelt_nova.Auth.Sessions.{
  Credentials, Session, SessionStore, needs_refresh, is_live, find_session, remove_session,
  with_credentials, renewed, renew_session,
}
use stardelt_nova.Auth.Sessions.Entries.{found_session, get-renew_session}
use stardelt_nova.Auth.Refresh.{
  TokenReader, IdentityProvider, refresh_session, Seen, seen_of, serve, session_credentials,
}
use stardelt_nova.Auth.Refresh.Renewal.{IsRenewal, refresh_session-IsRenewal}

module _ {V : Type 0} (api : ValueApi V) (reader : TokenReader V) (idp : IdentityProvider V)
    (cfg : ClaimConfig) where
  -- What a request that is served has seen.
  pub record Serves (now later : ℕ) (id : String) (session : Session) (after : SessionStore)
      (seen : Seen) : Type 0 where
    pub creds : Credentials
    pub left : get id after ≡ some (with_credentials creds session)
    pub identity : seen.0 ≡ creds.identity
    pub token : seen.1 ≡ some creds.tokens.access_token
    pub ends : seen.2 ≡ some session.expires_unix
    pub current :
        ((needs_refresh now session.credentials ≡ false) × (creds ≡ session.credentials))
        ⊎ ((needs_refresh now session.credentials ≡ true)
            × IsRenewal api reader idp cfg later session.credentials creds)

  keep_if-eq-some :
      (now : ℕ) (o : Option Session) (s : Session)
      → keep_if (is_live now) o ≡ some s
      → (o ≡ some s) × (now < s.expires)
  keep_if-eq-some now none s h = cc
  keep_if-eq-some now (some t) s h = elim (Bool-cases (ltb now t.expires)) [
    | inl live ↦ let same : t ≡ s = ground (arith, live) in rw (← same) (refl, ground arith)
    | inr over ↦ ground (arith, over)
  ]

  find_session_get :
      (now : ℕ) (id : String) (store : SessionStore)
      → get id (find_session now id store).0 ≡ (find_session now id store).1
  unfolding find_session
  find_session_get now id store = refl

  -- A session that a look finds.
  find_session-live :
      (now : ℕ) (id : String) (store : SessionStore) (s : Session)
      → (find_session now id store).1 ≡ some s
      → (get id store ≡ some s)
        × (now < s.expires)
        × (get id (find_session now id store).0 ≡ some s)
  find_session-live now id store s h =
      let (stored, live) =
        keep_if-eq-some now (get id store) s (sym (found_session now id store) ∙ h) in
      (stored, live, find_session_get now id store ∙ h)

  serves :
      (now later : ℕ) (id : String) (s : Session) (creds : Credentials) (after : SessionStore)
      → get id after ≡ some (with_credentials creds s)
      → ((needs_refresh now s.credentials ≡ false) × (creds ≡ s.credentials))
        ⊎ ((needs_refresh now s.credentials ≡ true)
            × IsRenewal api reader idp cfg later s.credentials creds)
      → Serves now later id s after (seen_of s creds)
  serves now later id s creds after left current = record {
    creds = creds;
    left = left;
    identity = refl;
    token = refl;
    ends = refl;
    current = current;
  }

  renewed-left :
      (id : String) (s : Session) (creds : Credentials) (store : SessionStore)
      → get id store ≡ some s
      → get id (renew_session id creds store) ≡ some (with_credentials creds s)
  unfolding renewed
  renewed-left id s creds store e =
      rw (get-renew_session id id creds store, (eq_iff id id).1 refl, e) refl

  serve-IsServed :
      (now later : ℕ) (id : String) (swept : SessionStore) (found : Option Session) (seen : Seen)
      → (serve api reader idp cfg now later id swept found).1 ≡ ok seen
      → get id swept ≡ found
      → (s : Session) × (found ≡ some s)
        × Serves now later id s (serve api reader idp cfg now later id swept found).0 seen
  unfolding serve
  serve-IsServed now later id swept none seen h e = cc
  serve-IsServed now later id swept (some s) seen h e =
      elim (Bool-cases (needs_refresh now s.credentials)) [
        | inl due ↦ elim (Result-cases (refresh_session api reader idp cfg later s.credentials)) [
          | inl (reason, failed) ↦ cc (rw (serve, due, failed) at h)
          | inr (creds, renewal) ↦
              let opened : Path (Result AuthError Seen) (ok (seen_of s creds)) (ok seen) =
                rw (serve, due, renewal) at h in
              let same : seen_of s creds ≡ seen = cc in
              rw (← same, serve, due, renewal)
                (
                  s,
                  refl,
                  serves now later id s creds _ (renewed-left id s creds swept e) (
                      inr (
                        due,
                        refresh_session-IsRenewal api reader idp cfg later s.credentials creds
                            renewal,
                      )),
                )
        ]
        | inr fresh ↦
            let opened : Path (Result AuthError Seen) (ok (seen_of s s.credentials)) (ok seen) =
              rw (serve, fresh) at h in
            let same : seen_of s s.credentials ≡ seen = cc in
            rw (← same, serve, fresh)
              (s, refl, serves now later id s s.credentials swept e (inl (fresh, refl)))
      ]

  -- A request with a session cookie that is served belongs to a stored session whose deadline is
  -- ahead; it sees the identity and access token that the session then holds and its unmoved
  -- deadline; and these are the stored ones when no renewal was due, or else those of an answer to
  -- the stored refresh token whose identity the provider vouches for, keeping that refresh token
  -- when the answer has none.
  pub session_credentials-IsServed :
      (now later : ℕ) (id : String) (store : SessionStore) (seen : Seen)
      → (session_credentials api reader idp cfg now later id store).1 ≡ ok seen
      → (session : Session) × (get id store ≡ some session)
        × (now < session.expires)
        × Serves now later id session
            (session_credentials api reader idp cfg now later id store).0
            seen
  unfolding session_credentials
  session_credentials-IsServed now later id store seen h =
      let (s, e, served) =
        serve-IsServed now later id (find_session now id store).0 (find_session now id store).1 seen
          h (find_session_get now id store) in
      let (stored, live, _) = find_session-live now id store s e in (s, stored, live, served)

  gone : (id : String) (store : SessionStore) → get id (remove_session id store) ≡ none
  unfolding remove_session
  gone id store = rw (get-remove id id store, (eq_iff id id).1 refl) refl

  serve-refused :
      (now later : ℕ) (id : String) (swept : SessionStore) (found : Option Session) (e : AuthError)
      → (serve api reader idp cfg now later id swept found).1 ≡ err e
      → get id swept ≡ found
      → (e ≡ unauthenticated)
        × (get id (serve api reader idp cfg now later id swept found).0 ≡ none)
  unfolding serve
  serve-refused now later id swept none e h absent = (cc, absent)
  serve-refused now later id swept (some s) e h stored =
      elim (Bool-cases (needs_refresh now s.credentials)) [
        | inl due ↦ elim (Result-cases (refresh_session api reader idp cfg later s.credentials)) [
          | inl (reason, failed) ↦
              let opened : Path (Result AuthError Seen) (err unauthenticated) (err e) =
                rw (serve, due, failed) at h in
              rw (serve, due, failed) (cc, gone id swept)
          | inr (creds, renewal) ↦ cc (rw (serve, due, renewal) at h)
        ]
        | inr fresh ↦ cc (rw (serve, fresh) at h)
      ]

  -- A request with a session cookie that is refused, be it for an unknown or expired session or
  -- for a renewal that failed at any step, has the answer of somebody who is not signed in, and no
  -- session is left under that identifier.
  pub session_credentials-refused :
      (now later : ℕ) (id : String) (store : SessionStore) (e : AuthError)
      → (session_credentials api reader idp cfg now later id store).1 ≡ err e
      → (e ≡ unauthenticated)
        × (get id (session_credentials api reader idp cfg now later id store).0 ≡ none)
  unfolding session_credentials
  session_credentials-refused now later id store e h =
      serve-refused now later id (find_session now id store).0 (find_session now id store).1 e h
        (find_session_get now id store)
