-- ===== src/Pipelines/Provenance/Laws.antt =====
-- What an accepted provenance is.
use text.Mathlib.TextEquality.{codes_equal}
use stardelt_nova.Prelude.{
  ℕ, ◌≤◌, ◌≡◌, ◌≢◌, ◌⊎◌, refl, ap, ◌↔◌, Char, code, String, Bool, true, false, Option, none, some,
  arith,
}
use stardelt_nova.Prelude.Results.{ok}
use stardelt_nova.Text.{◌&◌, byte_len, is_lower, is_digit, head_is, last_is}
use stardelt_nova.Pipelines.Provenance.{
  Provenance, is_dash, is_dashed_byte, dashed_name, revision_ok, check_provenance,
}
use stardelt_nova.Pipelines.Provenance.Revision.{
  Every, all_chars_iff, head_code, HasRevision, plain_revision_iff,
}

-- A lower-case letter, a digit or a dash.
abbrev pub IsDashedByte : ℕ → Type 0
IsDashedByte c = ((97 ≤ c) × (c ≤ 122)) ⊎ ((48 ≤ c) × (c ≤ 57)) ⊎ (c ≡ 45)

-- Letters, digits and dashes, with no dash at either end.
pub record IsDashed (text : String) (low high : ℕ) : Type 0 where
  pub long : low ≤ byte_len text
  pub short : byte_len text ≤ high
  pub bytes : Every IsDashedByte text
  pub begins : (t : String) → text ≢ "-" & t
  pub ends : (t : String) → text ≢ t & "-"

pub record IsProvenance (p : Provenance) : Type 0 where
  pub bundle : IsDashed p.bundle 3 40
  pub target : IsDashed p.target 1 32
  pub revision : HasRevision p.revision

is_dashed_byte_iff : (c : ℕ) → (is_dashed_byte c ≡ true) ↔ IsDashedByte c
unfolding is_dashed_byte is_lower is_digit
is_dashed_byte_iff c = ground arith

same_head : (c d : Char) (s : String) → code c ≡ code d → String.◌∷◌ c s ≡ String.◌∷◌ d s
same_head c d s h = ap (λ e. String.◌∷◌ e s) (codes_equal c d (ground (arith, h)))

dash_head : (c : Char) (s : String) → is_dash (code c) ≡ true → String.◌∷◌ c s ≡ "-" & s
dash_head c s h = same_head c _ s (ground arith)

-- A text begins with a dash, or with none.
first_dash : (s : String) → (head_is is_dash s ≡ true) ↔ ((t : String) × (s ≡ "-" & t))
unfolding head_is
first_dash String.[] = (λ h. cc, λ (t, e). cc)
first_dash (String.◌∷◌ c s) =
    (λ h. (s, dash_head c s h), λ (t, e). let same : code c ≡ 45 = ap head_code e in ground arith)

last_dash-snoc : (t : String) → last_is is_dash (t & "-") ≡ true
unfolding last_is
last_dash-snoc String.[] = refl
last_dash-snoc (String.◌∷◌ c String.[]) = refl
last_dash-snoc (String.◌∷◌ c (String.◌∷◌ d t)) = last_dash-snoc (String.◌∷◌ d t)

of_last_dash : (s : String) → last_is is_dash s ≡ true → (t : String) × (s ≡ t & "-")
unfolding last_is
of_last_dash String.[] h = cc
of_last_dash (String.◌∷◌ c String.[]) h = ("", dash_head c "" h)
of_last_dash (String.◌∷◌ c (String.◌∷◌ d s)) h =
    let (t, e) = of_last_dash (String.◌∷◌ d s) h in
    (String.◌∷◌ c t, ap (λ rest. String.◌∷◌ c rest) e)

last_dash : (s : String) → (last_is is_dash s ≡ true) ↔ ((t : String) × (s ≡ t & "-"))
last_dash s = (of_last_dash s, λ (t, e). rw e (last_dash-snoc t))

-- A test that tells whether a text has a form, when it fails.
apart_iff :
    (b : Bool) (s : String) (form : String → String)
    → ((b ≡ true) ↔ ((t : String) × (s ≡ form t)))
    → (b ≡ false) ↔ ((t : String) → s ≢ form t)
apart_iff true s form (to, from) = (λ h. cc, λ h. absurd (h (to refl).0 (to refl).1))
apart_iff false s form (to, from) = (λ _. λ t e. cc (from (t, e)), λ _. refl)

dashed_name_iff :
    (text : String) (low high : ℕ) → (dashed_name text low high ≡ true) ↔ IsDashed text low high
unfolding dashed_name
dashed_name_iff text low high =
    let (to, from) = all_chars_iff is_dashed_byte IsDashedByte is_dashed_byte_iff text in
    let (first, first_back) = apart_iff _ text (λ t. "-" & t) (first_dash text) in
    let (last, last_back) = apart_iff _ text (λ t. t & "-") (last_dash text) in
    (
      λ h. record {
        long = ground arith;
        short = ground arith;
        bytes = to (ground arith);
        begins = first (ground arith);
        ends = last (ground arith);
      },
      λ d.
          let bytes = from d.bytes in
          let begins = first_back d.begins in
          let ends = last_back d.ends in let long = d.long in let short = d.short in ground arith,
    )

revision_ok_iff : (r : Option String) → (revision_ok r ≡ true) ↔ HasRevision r
revision_ok_iff none = (λ _. tt, λ _. refl)
revision_ok_iff (some revision) = plain_revision_iff revision

accepted : (p : Provenance) → check_provenance p ≡ ok tt → IsProvenance p
unfolding check_provenance
accepted p h = record {
  bundle = (dashed_name_iff p.bundle 3 40).0 (ground arith);
  target = (dashed_name_iff p.target 1 32).0 (ground arith);
  revision = (revision_ok_iff p.revision).0 (ground arith);
}

acceptable : (p : Provenance) → IsProvenance p → check_provenance p ≡ ok tt
unfolding check_provenance
acceptable p i =
    let b = (dashed_name_iff p.bundle 3 40).1 i.bundle in
    let t = (dashed_name_iff p.target 1 32).1 i.target in
    let r = (revision_ok_iff p.revision).1 i.revision in ground arith

-- A deploy's provenance is accepted exactly when the bundle has 3 to 40 bytes and the target 1 to
-- 32, all of them lower-case letters, digits and dashes with no dash at either end, and the
-- revision, if there is one, is 7 to 64 hex digits with or without `-dirty` behind them.
pub check_provenance_iff : (p : Provenance) → (check_provenance p ≡ ok tt) ↔ IsProvenance p
check_provenance_iff p = (accepted p, acceptable p)
