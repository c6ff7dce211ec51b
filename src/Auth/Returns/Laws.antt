-- ===== src/Auth/Returns/Laws.antt =====
-- Where a browser may be sent after sign-in, and what is left of an error code.
use stardelt_nova.Prelude.{
  ℕ, zero, suc, ◌≤◌, code, String, ◌≡◌, refl, ◌≢◌, ◌↔◌, Bool, true, false, ◌&&◌, Option, none, some,
  arith, Bool-cases, inl, inr,
}
use stardelt_nova.Text.{◌&◌, byte_len, is_alnum, all_chars, has_char}
use stardelt_nova.Text.Prefix.{starts_with, starts_with_iff}
use stardelt_nova.Auth.Returns.{
  is_control, has_control, is_safe, safe_return_to, take_filtered, is_code_char, sanitize_code,
}

-- Neither a backslash nor a control character stands in the text.
abbrev pub Plain : String → Type 0
Plain String.[] = Unit
Plain (String.◌∷◌ c s) = (code c ≢ 92) × (is_control (code c) ≡ false) × Plain s

-- A path of this server that does not begin with the prefix of the sign-in routes: one slash begins
-- it and not two, so that no host can be read out of it.
pub record IsLocal (p : String) : Type 0 where
  pub rest : String
  pub begins : p ≡ "/" & rest
  pub one_slash : (t : String) → p ≡ "//" & t → ⊥
  pub plain : Plain p
  pub short : byte_len p ≤ 2048
  pub outside : (t : String) → p ≡ "/api/auth/" & t → ⊥

Plain-of : (p : String) → has_char 92 p ≡ false → has_control p ≡ false → Plain p
unfolding has_char has_control
Plain-of String.[] h k = tt
Plain-of (String.◌∷◌ c s) h k =
    (ground arith, ground arith, Plain-of s (ground arith) (ground arith))

of_Plain : (p : String) → Plain p → (has_char 92 p ≡ false) × (has_control p ≡ false)
unfolding has_char has_control
of_Plain String.[] h = (refl, refl)
of_Plain (String.◌∷◌ c s) (b, k, rest) =
    let (h, l) = of_Plain s rest in (ground arith, ground arith)

clash : {A : Type 0} (b : Bool) → b ≡ false → b ≡ true → A
clash b h k = cc

prefix_apart : (p q : String) → (starts_with p q ≡ false) ↔ ((t : String) → p ≡ q & t → ⊥)
prefix_apart p q =
    let (to, from) = starts_with_iff p q in
    (
      λ h t e. clash (starts_with p q) h (from (t, e)),
      λ none_of. elim (Bool-cases (starts_with p q)) [
        | inl held ↦ absurd (none_of (to held).0 (to held).1)
        | inr free ↦ free
      ],
    )

pub is_safe_iff : (p : String) → (is_safe p ≡ true) ↔ IsLocal p
unfolding is_safe
is_safe_iff p = (to, from)
  where
    to : is_safe p ≡ true → IsLocal p
    to h =
        let begins = (starts_with_iff p "/").0 (ground arith) in
        record {
          rest = begins.0;
          begins = begins.1;
          one_slash = (prefix_apart p "//").0 (ground arith);
          plain = Plain-of p (ground arith) (ground arith);
          short = ground arith;
          outside = (prefix_apart p "/api/auth/").0 (ground arith);
        }

    from : IsLocal p → is_safe p ≡ true
    from l =
        let (back, control) = of_Plain p l.plain in
        let one = (starts_with_iff p "/").1 (l.rest, l.begins) in
        let two = (prefix_apart p "//").1 l.one_slash in
        let out = (prefix_apart p "/api/auth/").1 l.outside in let short = l.short in ground arith

root_is_safe : is_safe "/" ≡ true
unfolding is_safe starts_with stardelt_nova.Text.strip_prefix
root_is_safe = refl

local : (raw : Option String) → IsLocal (safe_return_to raw)
unfolding safe_return_to
local none = (is_safe_iff "/").0 root_is_safe
local (some p) = elim (Bool-cases (is_safe p)) [
  | inl safe ↦ rw safe ((is_safe_iff p).0 safe)
  | inr unsafe ↦ rw unsafe ((is_safe_iff "/").0 root_is_safe)
]

-- The place that a browser is sent to after sign-in is a path of this server: it begins with one
-- slash and not two, has neither a backslash nor a control character, at most 2048 bytes, and does
-- not begin with `/api/auth/`; and a given text is kept exactly when it is such a path.
pub safe_return_to-IsLocal :
    (raw : Option String) (p : String)
    → IsLocal (safe_return_to raw) × ((safe_return_to (some p) ≡ p) ↔ IsLocal p)
unfolding safe_return_to
safe_return_to-IsLocal raw p = (local raw, (λ e. rw e at (local (some p)), from))
  where
    from : IsLocal p → safe_return_to (some p) ≡ p
    from l = rw ((is_safe_iff p).1 l) refl

take_filtered-all : (n : ℕ) (p : ℕ → Bool) (s : String) → all_chars p (take_filtered n p s) ≡ true
unfolding all_chars take_filtered
take_filtered-all zero p s = refl
take_filtered-all (suc n) p String.[] = refl
take_filtered-all (suc n) p (String.◌∷◌ c s) =
    ground (arith, take_filtered-all n p s, take_filtered-all (suc n) p s)

-- The number of characters.
abbrev pub char_count : String → ℕ
char_count String.[] = 0
char_count (String.◌∷◌ c s) = suc (char_count s)

take_filtered-count : (n : ℕ) (p : ℕ → Bool) (s : String) → char_count (take_filtered n p s) ≤ n
unfolding take_filtered
take_filtered-count zero p s = omega arith
take_filtered-count (suc n) p String.[] = omega arith
take_filtered-count (suc n) p (String.◌∷◌ c s) =
    ground (arith, take_filtered-count n p s, take_filtered-count (suc n) p s)

holds_first : (a b : Bool) → (a && b) ≡ true → a ≡ true
holds_first a b h = ground arith

take_filtered-same :
    (n : ℕ) (p : ℕ → Bool) (s : String)
    → char_count s ≤ n
    → all_chars p s ≡ true
    → take_filtered n p s ≡ s
unfolding take_filtered all_chars
take_filtered-same zero p String.[] h k = refl
take_filtered-same zero p (String.◌∷◌ c s) h k = absurd (omega (arith, h))
take_filtered-same (suc n) p String.[] h k = refl
take_filtered-same (suc n) p (String.◌∷◌ c s) h k =
    rw (holds_first (p (code c)) _ k)
      (cc (take_filtered-same n p s (omega (arith, h)) (ground arith)))

pub sanitize_code_bounds :
    (s : String)
    → (char_count (sanitize_code s) ≤ 64)
      × (all_chars is_code_char (sanitize_code s) ≡ true)
      × (sanitize_code (sanitize_code s) ≡ sanitize_code s)
unfolding sanitize_code
sanitize_code_bounds s = (
  take_filtered-count 64 is_code_char s,
  take_filtered-all 64 is_code_char s,
  take_filtered-same 64 is_code_char (take_filtered 64 is_code_char s)
      (take_filtered-count 64 is_code_char s) (take_filtered-all 64 is_code_char s),
)
