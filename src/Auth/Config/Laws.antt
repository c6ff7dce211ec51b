-- ===== src/Auth/Config/Laws.antt =====
-- Nova starts without sign-in only when asked to, and with it only when all of it is configured.
use stardelt_nova.Prelude.{
  ◌≤◌, String, ◌≡◌, refl, ◌≢◌, ◌↔◌, ◌⊎◌, inl, inr, true, not, ◌&&◌, ◌||◌, is_some, Option, none,
  some, List, [], ◌∷◌, any, leb→le, str_eq, eq_iff, arith, Bool-cases, Option-cases,
}
use stardelt_nova.Prelude.Results.{
  map_err-eq-ok, guard-eq-ok, ok_inj, Result, ok, err, ◌>>=◌, >>=-eq-ok,
}
use stardelt_nova.Text.{byte_len, split_space}
use stardelt_nova.Auth.Config.{
  UrlApi, OidcConfig, dev, oidc, min_session_secret_bytes, var, required, or_only, audiences_of,
  assembled, is_loopback, check_issuer, public_origin, oidc_of, from_lookup,
}

required-eq-ok :
    (get : String → Option String) (k : String) {v : String}
    → required get k ≡ ok v
    → var get k ≡ some v
unfolding required
required-eq-ok get k h = elim (Option-cases (var get k)) [
  | inl absent ↦ cc (rw (required, absent) at h)
  | inr (w, e) ↦ cc (rw (required, e) at h, e)
]

none_of : (o : Option String) → not (is_some o) ≡ true → o ≡ none
none_of none h = refl
none_of (some a) h = cc

or_only-some : (xs : List String) (x : String) → or_only xs x ≢ []
or_only-some [] x e = cc
or_only-some (y ∷ ys) x e = cc

audiences_of-some :
    (listed : Option String) (client_id : String) → audiences_of listed client_id ≢ []
unfolding audiences_of
audiences_of-some none client_id e = cc
audiences_of-some (some listed) client_id e = or_only-some _ client_id e

not_dev :
    {A : Type 0} (r : Result String OidcConfig) → (r >>= λ config. ok (oidc config)) ≡ ok dev → A
not_dev (ok config) h = cc
not_dev (err e) h = cc

configured :
    (r : Result String OidcConfig) (cfg : OidcConfig)
    → (r >>= λ config. ok (oidc config)) ≡ ok (oidc cfg)
    → r ≡ ok cfg
configured (ok config) cfg h = cc
configured (err e) cfg h = cc

module _ {U : Type 0} (urls : UrlApi U) where
  -- The address of the identity provider is safe to speak to.
  pub record IsIssuer (issuer : String) : Type 0 where
    pub url : U
    pub parsed : urls.parse issuer ≡ ok url
    pub secure :
        (urls.scheme url ≡ "https") ⊎ ((urls.scheme url ≡ "http") × (is_loopback urls url ≡ true))

  -- The origin of an address without a path.
  pub record IsOrigin (public_url origin : String) : Type 0 where
    pub url : U
    pub parsed : urls.parse public_url ≡ ok url
    pub scheme : (urls.scheme url ≡ "http") ⊎ (urls.scheme url ≡ "https")
    pub bare : (urls.path url ≡ "/") × (urls.query url ≡ none) × (urls.fragment url ≡ none)
    pub is_origin : urls.origin url ≡ origin

  pub record IsConfigured (get : String → Option String) (cfg : OidcConfig) : Type 0 where
    pub issuer : var get "NOVA_OIDC_ISSUER" ≡ some cfg.issuer
    pub is_issuer : IsIssuer cfg.issuer
    pub client_id : var get "NOVA_OIDC_CLIENT_ID" ≡ some cfg.client_id
    pub client_secret : var get "NOVA_OIDC_CLIENT_SECRET" ≡ some cfg.client_secret
    pub session_secret : var get "NOVA_SESSION_SECRET" ≡ some cfg.session_secret
    pub long : min_session_secret_bytes ≤ byte_len cfg.session_secret
    pub public_url : String
    pub public : var get "NOVA_PUBLIC_URL" ≡ some public_url
    pub is_origin : IsOrigin public_url cfg.public_url
    pub scopes : any (λ s. str_eq s "openid") (split_space cfg.scopes) ≡ true
    pub audiences : cfg.audiences ≢ []

  check_issuer-IsIssuer : (issuer : String) → check_issuer urls issuer ≡ ok tt → IsIssuer issuer
  unfolding check_issuer
  check_issuer-IsIssuer issuer h =
      let (u, e, g) = >>=-eq-ok _ _ h in
      record { url = u; parsed = map_err-eq-ok _ _ e; secure = safe u (guard-eq-ok _ _ g) }
    where
      safe :
          (u : U)
          → (str_eq (urls.scheme u) "https"
              || (str_eq (urls.scheme u) "http" && is_loopback urls u))
            ≡ true
          → (urls.scheme u ≡ "https") ⊎ ((urls.scheme u ≡ "http") × (is_loopback urls u ≡ true))
      safe u g = ground (arith, eq_iff (urls.scheme u) "https", eq_iff (urls.scheme u) "http")

  public_origin-IsOrigin :
      (public_url origin : String)
      → public_origin urls public_url ≡ ok origin
      → IsOrigin public_url origin
  unfolding public_origin
  public_origin-IsOrigin public_url origin h =
      let (u, e, h1) = >>=-eq-ok _ _ h in
      let (_, scheme, h2) = >>=-eq-ok _ _ h1 in
      let (_, bare, h3) = >>=-eq-ok _ _ h2 in
      record {
        url = u;
        parsed = map_err-eq-ok _ _ e;
        scheme = web u (guard-eq-ok _ _ scheme);
        bare = plain u (guard-eq-ok _ _ bare);
        is_origin = cc h3;
      }
    where
      web :
          (u : U)
          → ((str_eq (urls.scheme u) "http" || str_eq (urls.scheme u) "https")
              && is_some (urls.host_str u))
            ≡ true
          → (urls.scheme u ≡ "http") ⊎ (urls.scheme u ≡ "https")
      web u g = ground (arith, eq_iff (urls.scheme u) "https", eq_iff (urls.scheme u) "http")

      plain :
          (u : U)
          → (str_eq (urls.path u) "/"
              && not (is_some (urls.query u))
              && not (is_some (urls.fragment u)))
            ≡ true
          → (urls.path u ≡ "/") × (urls.query u ≡ none) × (urls.fragment u ≡ none)
      plain u g = (
        (eq_iff (urls.path u) "/").0 (ground arith),
        none_of (urls.query u) (ground arith),
        none_of (urls.fragment u) (ground arith),
      )

  oidc_of-IsConfigured :
      (get : String → Option String) (cfg : OidcConfig)
      → oidc_of urls get ≡ ok cfg
      → IsConfigured get cfg
  unfolding oidc_of
  oidc_of-IsConfigured get cfg h =
      let (issuer, e1, h1) = >>=-eq-ok _ _ h in
      let (_, e2, h2) = >>=-eq-ok _ _ h1 in
      let (client_id, e3, h3) = >>=-eq-ok _ _ h2 in
      let (client_secret, e4, h4) = >>=-eq-ok _ _ h3 in
      let (session_secret, e5, h5) = >>=-eq-ok _ _ h4 in
      let (_, e6, h6) = >>=-eq-ok _ _ h5 in
      let (public_url, e7, h7) = >>=-eq-ok _ _ h6 in
      let (origin, e8, h8) = >>=-eq-ok _ _ h7 in
      let (_, e9, h9) = >>=-eq-ok _ _ h8 in
      let same : assembled get issuer client_id client_secret session_secret origin ≡ cfg =
        ok_inj h9 in
      rw (← same) (record {
        issuer = required-eq-ok get _ e1;
        is_issuer = check_issuer-IsIssuer issuer e2;
        client_id = required-eq-ok get _ e3;
        client_secret = required-eq-ok get _ e4;
        session_secret = required-eq-ok get _ e5;
        long = leb→le _ _ (guard-eq-ok _ _ e6);
        public_url = public_url;
        public = required-eq-ok get _ e7;
        is_origin = public_origin-IsOrigin public_url origin e8;
        scopes = guard-eq-ok _ _ e9;
        audiences = audiences_of-some _ client_id;
      })

  -- Nova starts without sign-in exactly when the mode is unset, blank or `dev`; a configuration
  -- that is wrong or incomplete never leads there.
  pub from_lookup_dev_iff :
      (get : String → Option String)
      → (from_lookup urls get ≡ ok dev)
        ↔ ((var get "NOVA_AUTH_MODE" ≡ none) ⊎ (var get "NOVA_AUTH_MODE" ≡ some "dev"))
  unfolding from_lookup
  from_lookup_dev_iff get = (to, from)
    where
      to :
          from_lookup urls get ≡ ok dev
          → (var get "NOVA_AUTH_MODE" ≡ none) ⊎ (var get "NOVA_AUTH_MODE" ≡ some "dev")
      to h = elim (Option-cases (var get "NOVA_AUTH_MODE")) [
        | inl unset ↦ inl unset
        | inr (mode, e) ↦ elim (Bool-cases (str_eq mode "dev")) [
          | inl named ↦ inr (cc (e, (eq_iff mode "dev").0 named))
          | inr other ↦ elim (Bool-cases (str_eq mode "oidc")) [
            | inl chosen ↦ not_dev (oidc_of urls get) (rw (from_lookup, e, other, chosen) at h)
            | inr unknown ↦ cc (rw (from_lookup, e, other, unknown) at h)
          ]
        ]
      ]

      from :
          (var get "NOVA_AUTH_MODE" ≡ none) ⊎ (var get "NOVA_AUTH_MODE" ≡ some "dev")
          → from_lookup urls get ≡ ok dev
      from (inl unset) = rw (from_lookup, unset) refl
      from (inr e) = rw (from_lookup, e) refl

  -- When Nova starts with sign-in, the mode is `oidc`, every required variable is set, the issuer
  -- is reached over https (or over http on this machine), the session secret has at least 32
  -- bytes, the public address is the origin of an http or https address without a path, the scopes
  -- have `openid`, and there is an audience.
  pub from_lookup-IsConfigured :
      (get : String → Option String) (cfg : OidcConfig)
      → from_lookup urls get ≡ ok (oidc cfg)
      → (var get "NOVA_AUTH_MODE" ≡ some "oidc") × IsConfigured get cfg
  unfolding from_lookup
  from_lookup-IsConfigured get cfg h = elim (Option-cases (var get "NOVA_AUTH_MODE")) [
    | inl unset ↦ cc (rw (from_lookup, unset) at h)
    | inr (mode, e) ↦ elim (Bool-cases (str_eq mode "dev")) [
      | inl named ↦ cc (rw (from_lookup, e, named) at h)
      | inr other ↦ elim (Bool-cases (str_eq mode "oidc")) [
        | inl chosen ↦ (
          cc (e, (eq_iff mode "oidc").0 chosen),
          oidc_of-IsConfigured get cfg
              (configured (oidc_of urls get) cfg (rw (from_lookup, e, other, chosen) at h)),
        )
        | inr unknown ↦ cc (rw (from_lookup, e, other, unknown) at h)
      ]
    ]
  ]
