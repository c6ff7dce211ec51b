-- ===== src/Auth/Config/Discovered.antt =====
-- Which discovery documents are accepted.
use stardelt_nova.Prelude.{
  String, ◌≡◌, refl, ◌↔◌, ◌⊎◌, inl, inr, Bool, true, ◌&&◌, ◌||◌, All, str_eq, eq_iff, arith,
}
use stardelt_nova.Prelude.Results.{
  guard-eq-ok, ok, guard, each, Result-cases, guard_iff, >>_iff, each_iff,
}
use stardelt_nova.Auth.Config.{
  UrlApi, is_loopback, Discovery, trim_slashes, holds_of, check_endpoint, endpoints,
  validate_discovery,
}

module _ {U : Type 0} (urls : UrlApi U) where
  -- An endpoint is reached over https, or over http where the provider runs on this machine.
  pub record IsEndpoint (local : Bool) (ep : String) : Type 0 where
    pub url : U
    pub parsed : urls.parse ep ≡ ok url
    pub secure : (urls.scheme url ≡ "https") ⊎ ((local ≡ true) × (urls.scheme url ≡ "http"))

  check_endpoint_iff :
      (local : Bool) (name ep : String)
      → (check_endpoint urls local (name, ep) ≡ ok tt) ↔ IsEndpoint local ep
  unfolding check_endpoint
  check_endpoint_iff local name ep = (to, from)
    where
      tested : U → Bool
      tested u = str_eq (urls.scheme u) "https" || (local && str_eq (urls.scheme u) "http")

      secure :
          (u : U)
          → tested u ≡ true
          → (urls.scheme u ≡ "https") ⊎ ((local ≡ true) × (urls.scheme u ≡ "http"))
      secure u t = ground (arith, eq_iff (urls.scheme u) "https", eq_iff (urls.scheme u) "http")

      of_secure :
          (u : U)
          → (urls.scheme u ≡ "https") ⊎ ((local ≡ true) × (urls.scheme u ≡ "http"))
          → tested u ≡ true
      of_secure u t = ground (arith, eq_iff (urls.scheme u) "https", eq_iff (urls.scheme u) "http")

      to : check_endpoint urls local (name, ep) ≡ ok tt → IsEndpoint local ep
      to h = elim (Result-cases (urls.parse ep)) [
        | inl (e, bad) ↦ cc (rw (check_endpoint, bad) at h)
        | inr (u, good) ↦ record {
          url = u;
          parsed = good;
          secure = secure u (guard-eq-ok _ _ (rw (check_endpoint, good) at h));
        }
      ]

      from : IsEndpoint local ep → check_endpoint urls local (name, ep) ≡ ok tt
      from e = rw (check_endpoint, e.parsed) (rw (of_secure e.url e.secure) refl)

  -- A document is accepted exactly when its issuer is the configured one, but for slashes at the
  -- end, and its three endpoints are secure.
  pub validate_discovery_iff :
      (d : Discovery) (issuer : String)
      → (validate_discovery urls d issuer ≡ ok tt) ↔ (
          (trim_slashes d.issuer ≡ trim_slashes issuer)
          × All
              (λ (e : String × String).
                IsEndpoint (holds_of urls (urls.parse d.issuer) (is_loopback urls)) e.1)
              (endpoints d))
  unfolding validate_discovery
  validate_discovery_iff d issuer =
      let local = holds_of urls (urls.parse d.issuer) (is_loopback urls) in
      let (both, of_both) =
        >>_iff (guard (str_eq (trim_slashes d.issuer) (trim_slashes issuer)) _)
          (each (check_endpoint urls local) (endpoints d)) in
      let (all_to, all_from) = each_iff (check_endpoint urls local) (endpoints d) in
      let (same, of_same) = eq_iff (trim_slashes d.issuer) (trim_slashes issuer) in
      (
        λ h. (same (guard-eq-ok _ _ (both h).0), secure_all local (all_to (both h).1)),
        λ h. of_both ((guard_iff _ _).1 (of_same h.0), all_from (tested_all local h.1)),
      )
    where
      secure_all :
          (local : Bool)
          → All (λ (e : String × String). check_endpoint urls local e ≡ ok tt) (endpoints d)
          → All (λ (e : String × String). IsEndpoint local e.1) (endpoints d)
      secure_all local (a, (b, (c, _))) = (
        (check_endpoint_iff local "authorization_endpoint" d.authorization_endpoint).0 a,
        (
          (check_endpoint_iff local "token_endpoint" d.token_endpoint).0 b,
          ((check_endpoint_iff local "jwks_uri" d.jwks_uri).0 c, tt),
        ),
      )

      tested_all :
          (local : Bool)
          → All (λ (e : String × String). IsEndpoint local e.1) (endpoints d)
          → All (λ (e : String × String). check_endpoint urls local e ≡ ok tt) (endpoints d)
      tested_all local (a, (b, (c, _))) = (
        (check_endpoint_iff local "authorization_endpoint" d.authorization_endpoint).1 a,
        (
          (check_endpoint_iff local "token_endpoint" d.token_endpoint).1 b,
          ((check_endpoint_iff local "jwks_uri" d.jwks_uri).1 c, tt),
        ),
      )
