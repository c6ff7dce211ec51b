-- ===== src/Prelude/Results.antt =====
-- Rust's `Result`, its question mark, and the early return of an error.
use mathlib.Core.Path.{◌≡◌, refl}
use mathlib.Core.Logic.{◌↔◌, ◌⊎◌, inl, inr}
use mathlib.Core.Bool.{Bool, true, false}
use mathlib.Core.List.{List, [], ◌∷◌}
use stardelt_nova.Prelude.Lists.{All}

pub data Result {ℓ κ} (E : Type ℓ) (A : Type κ) : Type (ℓ ⊔ κ) where
  ok : A → Result E A
  err : E → Result E A

infixl 5 ◌>>=◌ ◌>>◌
abbrev pub ◌>>=◌ {ℓ κ μ} :
    {E : Type ℓ} {A : Type κ} {B : Type μ} → Result E A → (A → Result E B) → Result E B
err problem >>= next = err problem
ok value >>= next = next value

abbrev pub ◌>>◌ {ℓ κ} : {E : Type ℓ} {B : Type κ} → Result E (Unit {0}) → Result E B → Result E B
first >> rest = first >>= λ _. rest

-- `if !test { return Err(e); }`.
abbrev pub guard {ℓ} : {E : Type ℓ} → Bool → E → Result E (Unit {0})
guard false problem = err problem
guard true problem = ok tt

-- `for x in xs { check(x)?; }`.
abbrev pub each {ℓ κ} :
    {E : Type ℓ} {A : Type κ} → (A → Result E (Unit {0})) → List A → Result E (Unit {0})
each check [] = ok tt
each check (x ∷ xs) = check x >>= λ _. each check xs

-- `map_err`.
abbrev pub map_err {ℓ κ μ} :
    {E : Type ℓ} {F : Type κ} {A : Type μ} → (E → F) → Result E A → Result F A
map_err f (ok a) = ok a
map_err f (err e) = err (f e)

pub Result-cases {ℓ κ} :
    {E : Type ℓ} {A : Type κ} (r : Result E A) → ((e : E) × (r ≡ err e)) ⊎ ((a : A) × (r ≡ ok a))
Result-cases (ok a) = inr (a, refl)
Result-cases (err e) = inl (e, refl)

pub map_err_comp {ℓ κ μ ν} :
    {E : Type ℓ} {F : Type κ} {G : Type μ} {A : Type ν} (f : F → G) (g : E → F) (r : Result E A)
    → map_err f (map_err g r) ≡ map_err (λ e. f (g e)) r
map_err_comp f g (ok a) = refl
map_err_comp f g (err e) = refl

-- A chain that succeeds has a first step that succeeds.
pub >>=-eq-ok {ℓ κ μ} :
    {E : Type ℓ} {A : Type κ} {B : Type μ} (first : Result E A) (next : A → Result E B) {end : B}
    → (first >>= next) ≡ ok end
    → (middle : A) × (first ≡ ok middle) × (next middle ≡ ok end)
>>=-eq-ok (err problem) next succeeds = cc
>>=-eq-ok (ok middle) next succeeds = (middle, refl, succeeds)

pub map_err-eq-ok {ℓ κ μ} :
    {E : Type ℓ} {F : Type κ} {A : Type μ} (f : E → F) (r : Result E A) {a : A}
    → map_err f r ≡ ok a
    → r ≡ ok a
map_err-eq-ok f (ok b) h = cc
map_err-eq-ok f (err e) h = cc

pub guard-eq-ok {ℓ} :
    {E : Type ℓ} (test : Bool) (problem : E) {done : Unit {0}}
    → guard test problem ≡ ok done
    → test ≡ true
guard-eq-ok true problem h = refl
guard-eq-ok false problem h = cc

pub ok_inj {ℓ κ} : {E : Type ℓ} {A : Type κ} {a b : A} → Path (Result E A) (ok a) (ok b) → a ≡ b
ok_inj e = cc

module _ {ℓ} {E : Type ℓ} where
  pub guard_iff : (b : Bool) (e : E) → (guard b e ≡ ok tt) ↔ (b ≡ true)
  guard_iff true e = (λ _. refl, λ _. refl)
  guard_iff false e = (λ h. cc, λ h. cc)

  pub >>_iff : (m k : Result E (Unit {0})) → ((m >> k) ≡ ok tt) ↔ ((m ≡ ok tt) × (k ≡ ok tt))
  >>_iff (ok tt) k = (λ h. (refl, h), λ h. h.1)
  >>_iff (err e) k = (λ h. cc, λ h. cc)

  pub each_iff {κ} :
      {A : Type κ} (check : A → Result E (Unit {0})) (xs : List A)
      → (each check xs ≡ ok tt) ↔ All (λ x. check x ≡ ok tt) xs
  each_iff check [] = (λ _. tt, λ _. refl)
  each_iff check (x ∷ xs) =
      let (to, from) = >>_iff (check x) (each check xs) in
      let (all_to, all_from) = each_iff check xs in
      (λ h. ((to h).0, all_to (to h).1), λ h. from (h.0, all_from h.1))

  -- A check before the rest of a function.
  pub guarded_iff :
      (b : Bool) (e : E) (rest : Result E (Unit {0}))
      → ((guard b e >> rest) ≡ ok tt) ↔ ((b ≡ true) × (rest ≡ ok tt))
  guarded_iff true e rest = (λ h. (refl, h), λ h. h.1)
  guarded_iff false e rest = (λ h. cc, λ h. cc)
