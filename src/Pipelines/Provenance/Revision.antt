-- ===== src/Pipelines/Provenance/Revision.antt =====
-- Which revisions are accepted.
use stardelt_nova.Prelude.{
  ℕ, ◌≤◌, ◌≡◌, ◌⊎◌, inl, inr, refl, ap, ◌∙◌, ◌↔◌, Char, code, String, Bool, true, false, Option,
  none, some, arith, str_eq, eq_iff, Bool-cases, Option-cases,
}
use stardelt_nova.Text.{◌&◌, byte_len, is_digit, all_chars}
use stardelt_nova.Pipelines.Provenance.{is_hex_byte, strip_end, hex_of, plain_revision}

-- Every character satisfies `P`.
abbrev pub Every : (ℕ → Type 0) → String → Type 0
Every P String.[] = Unit
Every P (String.◌∷◌ c s) = P (code c) × Every P s

pub all_chars_iff :
    (p : ℕ → Bool) (P : ℕ → Type 0)
    → ((c : ℕ) → (p c ≡ true) ↔ P c)
    → (s : String) → (all_chars p s ≡ true) ↔ Every P s
unfolding all_chars
all_chars_iff p P f String.[] = (λ _. tt, λ _. refl)
all_chars_iff p P f (String.◌∷◌ c s) =
    let (to, from) = all_chars_iff p P f s in
    let (there, back) = f (code c) in
    (λ h. (there (ground arith), to (ground arith)), λ h. ground (arith, back h.0, from h.1))

-- A digit or one of the letters a to f.
abbrev pub IsHexByte : ℕ → Type 0
IsHexByte c = ((48 ≤ c) × (c ≤ 57)) ⊎ ((97 ≤ c) × (c ≤ 102))

-- 7 to 64 hex digits, and the mark of a changed working tree or nothing behind them.
abbrev pub HasRevision : Option String → Type 0
HasRevision none = Unit {0}
HasRevision (some revision) =
    (hex : String) × ((revision ≡ hex) ⊎ (revision ≡ hex & "-dirty"))
    × Every IsHexByte hex
    × (7 ≤ byte_len hex)
    × (byte_len hex ≤ 64)

abbrev pub head_code : String → ℕ
head_code String.[] = 0
head_code (String.◌∷◌ c s) = code c

is_hex_byte_iff : (c : ℕ) → (is_hex_byte c ≡ true) ↔ IsHexByte c
unfolding is_hex_byte is_digit
is_hex_byte_iff c = ground arith

eq_of_strip_end : (mark s front : String) → strip_end mark s ≡ some front → s ≡ front & mark
unfolding strip_end
eq_of_strip_end mark String.[] front h = elim (Bool-cases (str_eq "" mark)) [
  | inl same ↦
      let bare : "" ≡ front = cc (rw (strip_end, same) at h) in
      rw (← bare) ((eq_iff "" mark).0 same)
  | inr other ↦ cc (rw (strip_end, other) at h)
]
eq_of_strip_end mark (String.◌∷◌ c s) front h = elim (Bool-cases (str_eq (String.◌∷◌ c s) mark)) [
  | inl same ↦
      let bare : "" ≡ front = cc (rw (strip_end, same) at h) in
      rw (← bare) ((eq_iff (String.◌∷◌ c s) mark).0 same)
  | inr other ↦ elim (Option-cases (strip_end mark s)) [
    | inl absent ↦ cc (rw (strip_end, other, absent) at h)
    | inr (rest, e) ↦
        let whole : String.◌∷◌ c rest ≡ front = cc (rw (strip_end, other, e) at h) in
        rw (← whole) (ap (λ t. String.◌∷◌ c t) (eq_of_strip_end mark s rest e))
  ]
]

hex-ne-dirty :
    (c : Char) (s : String) → IsHexByte (code c) → str_eq (String.◌∷◌ c s) "-dirty" ≡ false
hex-ne-dirty c s h = elim (Bool-cases (str_eq (String.◌∷◌ c s) "-dirty")) [
  | inl same ↦
      let dash : code c ≡ 45 = ap head_code ((eq_iff (String.◌∷◌ c s) "-dirty").0 same) in
      absurd (ground arith)
  | inr other ↦ other
]

strip_end-hex : (s : String) → Every IsHexByte s → strip_end "-dirty" s ≡ none
unfolding strip_end
strip_end-hex String.[] h = refl
strip_end-hex (String.◌∷◌ c s) h = rw (hex-ne-dirty c s h.0, strip_end-hex s h.1) refl

strip_end-dirty : (s : String) → Every IsHexByte s → strip_end "-dirty" (s & "-dirty") ≡ some s
unfolding strip_end
strip_end-dirty String.[] h = refl
strip_end-dirty (String.◌∷◌ c s) h =
    rw (hex-ne-dirty c (s & "-dirty") h.0, strip_end-dirty s h.1) refl

hex_of-cases : (r : String) → (r ≡ hex_of r) ⊎ (r ≡ hex_of r & "-dirty")
unfolding hex_of
hex_of-cases r = elim (Option-cases (strip_end "-dirty" r)) [
  | inl clean ↦ inl (rw (hex_of, clean) refl)
  | inr (hex, e) ↦ inr (rw (hex_of, e) (eq_of_strip_end "-dirty" r hex e))
]

hex_of-eq :
    (r hex : String) → Every IsHexByte hex → (r ≡ hex) ⊎ (r ≡ hex & "-dirty") → hex_of r ≡ hex
unfolding hex_of
hex_of-eq r hex all (inl e) = ap hex_of e ∙ (rw (hex_of, strip_end-hex hex all) refl)
hex_of-eq r hex all (inr e) = ap hex_of e ∙ (rw (hex_of, strip_end-dirty hex all) refl)

pub plain_revision_iff : (r : String) → (plain_revision r ≡ true) ↔ HasRevision (some r)
unfolding plain_revision
plain_revision_iff r = (to, from)
  where
    to : plain_revision r ≡ true → HasRevision (some r)
    to h = (
      hex_of r,
      hex_of-cases r,
      (all_chars_iff is_hex_byte IsHexByte is_hex_byte_iff (hex_of r)).0 (ground arith),
      ground arith,
      ground arith,
    )

    from : HasRevision (some r) → plain_revision r ≡ true
    from (hex, e, all, long, short) =
        let bytes = (all_chars_iff is_hex_byte IsHexByte is_hex_byte_iff hex).1 all in
        rw (hex_of-eq r hex all e) (ground arith)
