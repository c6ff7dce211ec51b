-- ===== src/Auth/Keys/Tests.antt =====
-- An unknown key leads to one fetch, and a second within 30 seconds to none.
use stardelt_nova.Prelude.{ℕ, ◌+◌, ◌*◌, String, ◌≡◌, refl, Bool, true, some, List, [], ◌∷◌}
use stardelt_nova.Prelude.Results.{ok}
use stardelt_nova.Auth.Sessions.{second}
use stardelt_nova.Auth.Sample.{json}
use stardelt_nova.Auth.Tokens.{verify_jwt}
use stardelt_nova.Auth.Tokens.Tests.{tokens, id_expected, id_claims}
use stardelt_nova.Auth.Tokens.Laws.{IsAccepted}
use stardelt_nova.Auth.Keys.{JwksCache, Moment, verify_with}
use stardelt_nova.Auth.Keys.Laws.{
  fetches, IsSpaced, fetches-IsSpaced, IsKnown, verify_with-IsAccepted,
}

abbrev old : JwksCache String
old = record { keys = "k0" ∷ []; fetched_at = some 0 }

abbrev moment : ℕ → Moment String
moment now = record { asked = now; locked = now; answer = ok ("k1" ∷ []); answered = now + 1 }

abbrev calls : List (Bool × Moment String)
calls =
    (true, moment (29 * second)) ∷ (true, moment (31 * second)) ∷ (true, moment (32 * second)) ∷ []

one_fetch : fetches calls old ≡ moment (31 * second) ∷ []
unfolding fetches
one_fetch = refl

fetches-IsSpaced_example : IsSpaced (some 0) (fetches calls old)
fetches-IsSpaced_example = fetches-IsSpaced calls old

retried :
    (verify_with tokens json "id" id_expected (moment (40 * second)) (moment (41 * second)) old).1
    ≡ ok id_claims
unfolding verify_with json stardelt_nova.Map.contains verify_jwt
retried = refl

verify_with-IsAccepted_example :
    (keys : List String) × IsKnown tokens json "id" id_expected
      (moment (40 * second))
      (moment (41 * second))
      old
      keys
    × (verify_jwt tokens json "id" keys id_expected ≡ ok id_claims)
    × IsAccepted tokens json "id" keys id_expected id_claims
verify_with-IsAccepted_example =
    verify_with-IsAccepted tokens json "id" id_expected (moment (40 * second))
      (moment (41 * second)) old id_claims retried
