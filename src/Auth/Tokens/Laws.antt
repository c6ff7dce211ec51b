-- ===== src/Auth/Tokens/Laws.antt =====
-- What the acceptance of a token says of it.
use stardelt_nova.Prelude.{
  String, ◌≡◌, ◌≢◌, refl, ◌++◌, All, ap, not, ◌⊎◌, inl, inr, Bool, true, false, Option, none, some,
  List, [], ◌∷◌, arith, eq_iff, Bool-cases,
}
use stardelt_nova.Prelude.Results.{map_err-eq-ok, guard-eq-ok, ok, ◌>>◌, guard, >>=-eq-ok, >>_iff}
use stardelt_nova.Map.{contains}
use stardelt_nova.Values.{ValueApi}
use stardelt_nova.Auth.Errors.{AuthError, invalid_token}
use stardelt_nova.Auth.Claims.{is_some_of}
use stardelt_nova.Auth.Claims.Laws.{is_some_of_iff}
use stardelt_nova.Auth.Tokens.{
  Header, JwtApi, Expect, allowed_algs, ok_or, only, nonce_ok, party_rule, signing, find_key,
  select_key, validation, claimed, multi_aud, check_claims, algorithm_fits, verify_jwt,
}

ok_or-eq-ok : {A : Type 0} (o : Option A) (e : AuthError) {a : A} → ok_or o e ≡ ok a → o ≡ some a
ok_or-eq-ok none e h = cc
ok_or-eq-ok (some a) e h = cc

only-eq-some : {A : Type 0} (xs : List A) {x : A} → only xs ≡ some x → xs ≡ x ∷ []
only-eq-some [] h = cc
only-eq-some (x ∷ []) h = cc
only-eq-some (x ∷ y ∷ xs) h = cc

party_rule-eq-ok :
    (client_id : String) (multi : Bool) (azp : Option String) {u : Unit {0}}
    → party_rule client_id multi azp ≡ ok u
    → (azp ≡ some client_id) ⊎ ((azp ≡ none) × (multi ≡ false))
unfolding party_rule
party_rule-eq-ok client_id multi (some azp) h =
    inl (ap some ((eq_iff azp client_id).0 (guard-eq-ok _ _ h)))
party_rule-eq-ok client_id true none h = cc
party_rule-eq-ok client_id false none h = inr (refl, refl)

nonce_ok-eq-true :
    (expected claim : Option String) (nonce : String)
    → nonce_ok expected claim ≡ true
    → expected ≡ some nonce
    → claim ≡ some nonce
nonce_ok-eq-true none claim nonce h e = cc
nonce_ok-eq-true (some sent) claim nonce h e = cc ((is_some_of_iff claim sent).0 h)

module _ {V : Type 0} (api : ValueApi V) where
  -- What the claims of an accepted token satisfy.
  pub data MayClaim (claims : V) (expect : Expect) : Type 0 where
    as_id_token :
        expect.id_token ≡ true
        → ((nonce : String) → expect.nonce ≡ some nonce → claimed api claims "nonce" ≡ some nonce)
        → (claimed api claims "azp" ≡ some expect.client_id)
          ⊎ ((claimed api claims "azp" ≡ none) × (multi_aud api claims ≡ false))
        → MayClaim claims expect
    as_access_token :
        expect.id_token ≡ false
        → (claimed api claims "typ" ≡ some "ID" → ⊥)
        → MayClaim claims expect

  not_both : (b : Bool) → b ≡ true → not b ≡ true → ⊥
  not_both b p q = cc

  check_claims-MayClaim :
      (claims : V) (expect : Expect)
      → check_claims api claims expect ≡ ok tt
      → MayClaim claims expect
  unfolding check_claims
  check_claims-MayClaim claims expect h = elim (Bool-cases expect.id_token) [
    | inl id ↦
        let opened : (guard (nonce_ok expect.nonce (claimed api claims "nonce"))
                (invalid_token "nonce mismatch")
              >> party_rule expect.client_id (multi_aud api claims) (claimed api claims "azp"))
            ≡ ok tt =
          rw (id, check_claims) at h in
        let (nonce, party) = (>>_iff _ _).0 opened in
        as_id_token id (λ n e. nonce_ok-eq-true expect.nonce _ n (guard-eq-ok _ _ nonce) e)
          (party_rule-eq-ok expect.client_id _ _ party)
    | inr access ↦
        let opened : guard (not (is_some_of (claimed api claims "typ") "ID"))
              (invalid_token "ID token used as access token")
            ≡ ok tt =
          rw (access, check_claims) at h in
        as_access_token access
          (λ e. not_both _ ((is_some_of_iff _ "ID").1 e) (guard-eq-ok _ _ opened))
  ]

module _ {V Jwk DecodingKey : Type 0} (jwt : JwtApi V Jwk DecodingKey) where
  -- A key that does not sign under the identifier `kid`.
  abbrev pub IsPassed : String → Jwk → Type 0
  IsPassed kid k = (jwt.is_encryption k ≡ true) ⊎ (jwt.key_id k ≢ some kid)

  -- A key of the set that is not for encryption: the first with the identifier that the token
  -- names, or, for a token that names none, the only one.
  pub data IsSigner (keys : List Jwk) (jwk : Jwk) : Option String → Type 0 where
    by_name :
        (kid : String) (front rest : List Jwk)
        → keys ≡ front ++ jwk ∷ rest
        → All (IsPassed kid) front
        → jwt.is_encryption jwk ≡ false
        → jwt.key_id jwk ≡ some kid
        → IsSigner keys jwk (some kid)
    alone :
        (front rest : List Jwk)
        → keys ≡ front ++ jwk ∷ rest
        → All (λ k. jwt.is_encryption k ≡ true) front
        → jwt.is_encryption jwk ≡ false
        → All (λ k. jwt.is_encryption k ≡ true) rest
        → IsSigner keys jwk none

  IsSigner-cons_named :
      (kid : String) (k jwk : Jwk) (keys : List Jwk)
      → IsPassed kid k
      → IsSigner keys jwk (some kid)
      → IsSigner (k ∷ keys) jwk (some kid)
  IsSigner-cons_named kid k jwk keys passed (by_name _ front rest e all signs named) =
      by_name kid (k ∷ front) rest (ap (λ ks. k ∷ ks) e) (passed, all) signs named

  IsSigner-cons_alone :
      (k jwk : Jwk) (keys : List Jwk)
      → jwt.is_encryption k ≡ true
      → IsSigner keys jwk none
      → IsSigner (k ∷ keys) jwk none
  IsSigner-cons_alone k jwk keys hidden (alone front rest e before signs after) =
      alone (k ∷ front) rest (ap (λ ks. k ∷ ks) e) (hidden, before) signs after

  find_key-IsSigner :
      (kid : String) (keys : List Jwk) (jwk : Jwk)
      → find_key jwt kid (signing jwt keys) ≡ some jwk
      → IsSigner keys jwk (some kid)
  unfolding find_key signing
  find_key-IsSigner kid [] jwk h = cc
  find_key-IsSigner kid (k ∷ keys) jwk h = elim (Bool-cases (jwt.is_encryption k)) [
    | inl hidden ↦
        IsSigner-cons_named kid k jwk keys (inl hidden)
          (find_key-IsSigner kid keys jwk (ground arith))
    | inr signs ↦ elim (Bool-cases (is_some_of (jwt.key_id k) kid)) [
      | inl named ↦
          let same : k ≡ jwk = ground arith in
          rw (← same) (by_name kid [] keys refl tt signs ((is_some_of_iff _ kid).0 named))
      | inr other ↦
          IsSigner-cons_named kid k jwk keys
            (inr (λ e. let named = (is_some_of_iff (jwt.key_id k) kid).1 e in cc))
            (find_key-IsSigner kid keys jwk (ground arith))
    ]
  ]

  signing-nil :
      (keys : List Jwk) → signing jwt keys ≡ [] → All (λ k. jwt.is_encryption k ≡ true) keys
  unfolding signing
  signing-nil [] h = tt
  signing-nil (k ∷ keys) h = elim (Bool-cases (jwt.is_encryption k)) [
    | inl hidden ↦ (hidden, signing-nil keys (ground arith))
    | inr signs ↦ cc (rw signs at h)
  ]

  only-IsSigner :
      (keys : List Jwk) (jwk : Jwk) → signing jwt keys ≡ jwk ∷ [] → IsSigner keys jwk none
  unfolding signing
  only-IsSigner [] jwk h = cc
  only-IsSigner (k ∷ keys) jwk h = elim (Bool-cases (jwt.is_encryption k)) [
    | inl hidden ↦ IsSigner-cons_alone k jwk keys hidden (only-IsSigner keys jwk (ground arith))
    | inr signs ↦
        let opened : k ∷ signing jwt keys ≡ jwk ∷ [] = rw signs at h in
        let same : k ≡ jwk = cc in
        let none_left : signing jwt keys ≡ [] = cc in
        rw (← same) (alone [] keys refl tt signs (signing-nil keys none_left))
  ]

  select_key-IsSigner :
      (keys : List Jwk) (kid : Option String) (jwk : Jwk)
      → select_key jwt keys kid ≡ ok jwk
      → IsSigner keys jwk kid
  unfolding select_key
  select_key-IsSigner keys (some kid) jwk h = find_key-IsSigner kid keys jwk (ok_or-eq-ok _ _ h)
  select_key-IsSigner keys none jwk h =
      only-IsSigner keys jwk (only-eq-some (signing jwt keys) (ok_or-eq-ok _ _ h))

  module _ (api : ValueApi V) where
    pub record IsAccepted (token : String) (keys : List Jwk) (expect : Expect) (claims : V)
        : Type 0 where
      pub header : Header
      pub jwk : Jwk
      pub key : DecodingKey
      pub decoded_header : jwt.decode_header token ≡ some header
      pub allowed : contains allowed_algs header.alg ≡ true
      pub signer : IsSigner keys jwk header.kid
      pub fits : algorithm_fits header.alg (jwt.key_algorithm jwk) ≡ true
      pub usable : jwt.from_jwk jwk ≡ some key
      pub verified : jwt.decode token key (validation header.alg expect) ≡ ok claims
      pub claim : MayClaim api claims expect

    -- A token is accepted only when its header names an allowed algorithm, its signing key is one
    -- of the given keys that is not for encryption, the first with its kid (or, without a kid, the
    -- only one), the algorithm is that of the key,
    -- `decode` accepts it for that algorithm, the issuer and the audiences, and its claims fit: an
    -- ID token has the nonce that was sent and the client as its authorized party, and an access
    -- token is no ID token.
    pub verify_jwt-IsAccepted :
        (token : String) (keys : List Jwk) (expect : Expect) (claims : V)
        → verify_jwt jwt api token keys expect ≡ ok claims
        → IsAccepted token keys expect claims
    unfolding verify_jwt
    verify_jwt-IsAccepted token keys expect claims h =
        let (header, e1, h1) = >>=-eq-ok _ _ h in
        let (u, e2, h2) = >>=-eq-ok _ _ h1 in
        let (jwk, e3, h3) = >>=-eq-ok _ _ h2 in
        let (v, e4, h4) = >>=-eq-ok _ _ h3 in
        let (key, e5, h5) = >>=-eq-ok _ _ h4 in
        let (read, e6, h6) = >>=-eq-ok _ _ h5 in
        let (w, e7, h7) = >>=-eq-ok _ _ h6 in
        let same : read ≡ claims = cc in
        rw (← same) (record {
          header = header;
          jwk = jwk;
          key = key;
          decoded_header = ok_or-eq-ok _ _ e1;
          allowed = guard-eq-ok _ _ e2;
          signer = select_key-IsSigner keys header.kid jwk e3;
          fits = guard-eq-ok _ _ e4;
          usable = ok_or-eq-ok _ _ e5;
          verified = map_err-eq-ok _ _ e6;
          claim = check_claims-MayClaim api read expect e7;
        })
