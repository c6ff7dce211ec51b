-- ===== src/Connections/Validate/Interval.antt =====
-- Which refresh intervals are accepted.
use stardelt_nova.Prelude.{
  ◌≤◌, ◌≡◌, refl, ap, ◌∙◌, ◌≢◌, ◌↔◌, ℕ, ◌*◌, ◌⊎◌, inl, inr, Option-cases, String, true, false,
  Option, none, some, arith,
}
use stardelt_nova.Text.{◌&◌, byte_len, is_empty, is_digit, all_chars, parse_unsigned, strip_suffix}
use stardelt_nova.Text.Suffix.{eq_of_strip_suffix, strip_suffix-&}
use stardelt_nova.Connections.Validate.{interval_ok, refresh_ok, refresh_rule}

pub not-is_empty : (v : String) → (is_empty v ≡ false) ↔ (v ≢ "")
not-is_empty String.[] = (λ h. cc, λ h. absurd (h refl))
not-is_empty (String.◌∷◌ c v) = (λ _. λ e. cc, λ _. refl)

-- One to four digits with the value `n`.
pub record IsCount (digits : String) (n : ℕ) : Type 0 where
  pub there : digits ≢ ""
  pub short : byte_len digits ≤ 4
  pub digits_only : all_chars is_digit digits ≡ true
  pub value : parse_unsigned 32 digits ≡ some n

-- 1 to 1440 minutes, or 1 to 24 hours.
abbrev pub HasInterval : Option String → Type 0
HasInterval none = Unit
HasInterval (some r) =
    (digits : String) × (n : ℕ) × IsCount digits n
    × (((r ≡ digits & "m") × (1 ≤ n) × (n ≤ 1440)) ⊎ ((r ≡ digits & "h") × (1 ≤ n) × (n ≤ 24)))

interval_ok_lem :
    (digits : String) (unit : ℕ)
    → interval_ok digits unit ≡ true
    → (n : ℕ) × IsCount digits n × (1 ≤ n * unit) × (n * unit ≤ 1440)
unfolding interval_ok
interval_ok_lem digits unit h = elim (Option-cases (parse_unsigned 32 digits)) [
  | inl unread ↦ ground (arith, unread)
  | inr (n, e) ↦
      let whole = rw (interval_ok, e) at h in
      (
        n,
        record {
          there = (not-is_empty digits).0 (ground arith);
          short = ground arith;
          digits_only = ground arith;
          value = e;
        },
        ground arith,
        ground arith,
      )
]

of_count :
    (digits : String) (unit n : ℕ)
    → IsCount digits n
    → 1 ≤ n * unit
    → n * unit ≤ 1440
    → interval_ok digits unit ≡ true
unfolding interval_ok
of_count digits unit n c low high =
    let there = (not-is_empty digits).1 c.there in
    let short = c.short in
    let all = c.digits_only in rw (interval_ok, c.value, there, all) (ground arith)

to_interval : (r : String) → refresh_ok r ≡ true → HasInterval (some r)
unfolding refresh_ok
to_interval r h = elim (Option-cases (strip_suffix b'm' r)) [
  | inr (digits, m) ↦
      let (n, count, low, high) = interval_ok_lem digits 1 (rw (refresh_ok, m) at h) in
      (digits, n, count, inl (eq_of_strip_suffix _ r digits m, omega arith, omega arith))
  | inl no_m ↦ elim (Option-cases (strip_suffix b'h' r)) [
    | inl no_h ↦ cc (rw (refresh_ok, no_m, no_h) at h)
    | inr (digits, e) ↦
        let (n, count, low, high) = interval_ok_lem digits 60 (rw (refresh_ok, no_m, e) at h) in
        (digits, n, count, inr (eq_of_strip_suffix _ r digits e, omega arith, omega arith))
  ]
]

no_minutes : (digits : String) → strip_suffix b'm' (digits & "h") ≡ none
unfolding strip_suffix
no_minutes String.[] = refl
no_minutes (String.◌∷◌ c String.[]) = refl
no_minutes (String.◌∷◌ c (String.◌∷◌ d s)) = rw (no_minutes (String.◌∷◌ d s)) refl

of_interval : (r : String) → HasInterval (some r) → refresh_ok r ≡ true
unfolding refresh_ok
of_interval r (digits, n, count, inl (e, low, high)) =
    let minutes : strip_suffix b'm' (digits & "m") ≡ some digits = strip_suffix-& _ digits in
    ap refresh_ok e
    ∙ rw (refresh_ok, minutes) (of_count digits 1 n count (omega arith) (omega arith))
of_interval r (digits, n, count, inr (e, low, high)) =
    let hours : strip_suffix b'h' (digits & "h") ≡ some digits = strip_suffix-& _ digits in
    ap refresh_ok e
    ∙ rw (refresh_ok, no_minutes digits, hours)
        (of_count digits 60 n count (omega arith) (omega arith))

pub interval_iff : (r : Option String) → (refresh_rule r ≡ true) ↔ HasInterval r
interval_iff none = (λ _. tt, λ _. refl)
interval_iff (some r) = (to_interval r, of_interval r)
