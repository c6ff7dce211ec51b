-- ===== src/Text/Suffix.antt =====
-- A text ends with a character when it is something and the character behind it.
use text.Mathlib.TextEquality.{codes_equal}
use stardelt_nova.Prelude.{
  Char, code, String, ◌≡◌, refl, ap, ◌==◌, some, arith, Bool-cases, Option-cases, inl, inr,
}
use stardelt_nova.Text.Chars.{◌&◌}
use stardelt_nova.Text.Split.{strip_suffix}

module _ (k : Char) where
  abbrev pub one : String
  one = String.◌∷◌ k ""

  pub eq_of_strip_suffix : (s t : String) → strip_suffix (code k) s ≡ some t → s ≡ t & one
  unfolding strip_suffix
  eq_of_strip_suffix String.[] t h = cc
  eq_of_strip_suffix (String.◌∷◌ c String.[]) t h = elim (Bool-cases (code c == code k)) [
    | inl same ↦
        let bare : "" ≡ t = cc (rw same at h) in
        rw (← bare) (ap (λ e. String.◌∷◌ e "") (codes_equal c k (ground arith)))
    | inr other ↦ cc (rw other at h)
  ]
  eq_of_strip_suffix (String.◌∷◌ c (String.◌∷◌ d s)) t h =
      elim (Option-cases (strip_suffix (code k) (String.◌∷◌ d s))) [
        | inl absent ↦ cc (rw absent at h)
        | inr (rest, e) ↦
            let whole : String.◌∷◌ c rest ≡ t = cc (rw e at h) in
            rw (← whole) (ap (λ u. String.◌∷◌ c u) (eq_of_strip_suffix (String.◌∷◌ d s) rest e))
      ]

  strip_suffix-one : strip_suffix (code k) one ≡ some ""
  unfolding strip_suffix
  strip_suffix-one = ground arith

  pub strip_suffix-& : (t : String) → strip_suffix (code k) (t & one) ≡ some t
  unfolding strip_suffix
  strip_suffix-& String.[] = strip_suffix-one
  strip_suffix-& (String.◌∷◌ c String.[]) = ground (arith, strip_suffix-one)
  strip_suffix-& (String.◌∷◌ c (String.◌∷◌ d t)) = rw (strip_suffix-& (String.◌∷◌ d t)) refl
