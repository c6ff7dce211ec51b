-- ===== src/Text/Prefix.antt =====
-- A text has a prefix when it is the prefix and something behind it.
use text.Mathlib.TextEquality.{codes_equal}
use stardelt_nova.Prelude.{
  code, String, ◌≡◌, refl, ◌↔◌, Bool, true, is_some, some, ◌==◌, arith, Bool-cases, inl, inr,
  Option-cases,
}
use stardelt_nova.Text.Chars.{◌&◌}
use stardelt_nova.Text.Split.{strip_prefix}

pub eq_of_strip_prefix : (p s t : String) → strip_prefix p s ≡ some t → s ≡ p & t
unfolding strip_prefix
eq_of_strip_prefix String.[] s t h = cc
eq_of_strip_prefix (String.◌∷◌ k p) String.[] t h = cc
eq_of_strip_prefix (String.◌∷◌ k p) (String.◌∷◌ c s) t h = elim (Bool-cases (code k == code c)) [
  | inl same ↦ cc (codes_equal k c (ground arith), eq_of_strip_prefix p s t (ground (arith, same)))
  | inr other ↦ cc (rw other at h)
]

pub strip_prefix-& : (p t : String) → strip_prefix p (p & t) ≡ some t
unfolding strip_prefix
strip_prefix-& String.[] t = refl
strip_prefix-& (String.◌∷◌ k p) t = ground (arith, strip_prefix-& p t)

-- `s.starts_with(p)`.
unfoldable pub starts_with : String → String → Bool
unfolding strip_prefix
starts_with s p = is_some (strip_prefix p s)

pub starts_with_iff : (s p : String) → (starts_with s p ≡ true) ↔ ((t : String) × (s ≡ p & t))
unfolding starts_with
starts_with_iff s p = (to, from)
  where
    to : starts_with s p ≡ true → (t : String) × (s ≡ p & t)
    to h = elim (Option-cases (strip_prefix p s)) [
      | inl absent ↦ cc (rw (starts_with, absent) at h)
      | inr (t, e) ↦ (t, eq_of_strip_prefix p s t e)
    ]

    from : (t : String) × (s ≡ p & t) → starts_with s p ≡ true
    from (t, e) = rw (e, strip_prefix-& p t) refl
