-- ===== src/Text/Split.antt =====
-- Prefixes, suffixes, trimming, splitting, and numbers as text.
use stardelt_nova.Prelude.{
  ℕ, ◌+◌, ◌-◌, ◌*◌, ◌^◌, Char, code, String, Bool, true, false, ◌&&◌, ltb, ◌==◌, if◌then◌else◌,
  Option, none, some, List, [], ◌∷◌,
}
use stardelt_nova.Text.Chars.{is_upper, is_digit, is_space, is_empty}

-- `s.strip_prefix(p)`.
unfoldable pub strip_prefix : String → String → Option String
strip_prefix String.[] s = some s
strip_prefix (String.◌∷◌ k p) String.[] = none
strip_prefix (String.◌∷◌ k p) (String.◌∷◌ c s) = if code k == code c then strip_prefix p s else none

-- `s.strip_suffix(ch)`, for one character.
unfoldable pub strip_suffix : ℕ → String → Option String
strip_suffix k String.[] = none
strip_suffix k (String.◌∷◌ c String.[]) = if code c == k then some "" else none
strip_suffix k (String.◌∷◌ c (String.◌∷◌ d s)) = elim (strip_suffix k (String.◌∷◌ d s)) [
  | none ↦ none
  | some rest ↦ some (String.◌∷◌ c rest)
]

unfoldable pub trim_start : String → String
unfolding is_space
trim_start String.[] = ""
trim_start (String.◌∷◌ c s) = if is_space (code c) then trim_start s else String.◌∷◌ c s

unfoldable pub trim_end : String → String
unfolding is_space
trim_end String.[] = ""
trim_end (String.◌∷◌ c s) =
    let rest = trim_end s in if is_empty rest && is_space (code c) then "" else String.◌∷◌ c rest

unfoldable pub trim : String → String
unfolding trim_start trim_end
trim s = trim_end (trim_start s)

-- `s.split_once(ch)`: the text before the first `ch`, and the text behind it.
unfoldable pub split_once : ℕ → String → Option (String × String)
split_once k String.[] = none
split_once k (String.◌∷◌ c s) =
    let rest = split_once k s in
    if code c == k
    then some ("", s)
    else elim rest [ none ↦ none | some (a, b) ↦ some (String.◌∷◌ c a, b) ]

onto : Char → List String → List String
onto c [] = String.◌∷◌ c "" ∷ []
onto c (p ∷ ps) = String.◌∷◌ c p ∷ ps

-- `s.split(ch)`.
unfoldable pub split_on : ℕ → String → List String
unfolding onto
split_on k String.[] = "" ∷ []
split_on k (String.◌∷◌ c s) =
    let rest = split_on k s in if code c == k then "" ∷ rest else onto c rest

words : String → List String
unfolding onto is_space
words String.[] = []
words (String.◌∷◌ c String.[]) = if is_space (code c) then [] else String.◌∷◌ c "" ∷ []
words (String.◌∷◌ c (String.◌∷◌ d s)) =
    let rest = words (String.◌∷◌ d s) in
    if is_space (code c)
    then rest
    else if is_space (code d)
    then String.◌∷◌ c "" ∷ rest
    else onto c rest

-- `s.split_whitespace()`.
unfoldable pub split_space : String → List String
unfolding words
split_space s = words s

-- The value of a run of digits, read on from `n`, when every character is one.
unfoldable pub parse_digits : ℕ → String → Option ℕ
unfolding is_digit
parse_digits n String.[] = some n
parse_digits n (String.◌∷◌ c s) =
    if is_digit (code c) then parse_digits (n * 10 + (code c - b'0')) s else none

unfoldable pub below : ℕ → Option ℕ → Option ℕ
below bits none = none
below bits (some n) = if ltb n (2 ^ bits) then some n else none

-- `s.parse::<uN>()` with N = `bits`: an optional plus sign, at least one digit, and a value that
-- fits.
unfoldable pub parse_unsigned : ℕ → String → Option ℕ
unfolding parse_digits below
parse_unsigned bits String.[] = none
parse_unsigned bits (String.◌∷◌ c String.[]) =
    if code c == b'+' then none else below bits (parse_digits 0 (String.◌∷◌ c ""))
parse_unsigned bits (String.◌∷◌ c (String.◌∷◌ d s)) =
    if code c == b'+'
    then below bits (parse_digits 0 (String.◌∷◌ d s))
    else below bits (parse_digits 0 (String.◌∷◌ c (String.◌∷◌ d s)))

unfoldable pub to_lower : ℕ → ℕ
unfolding is_upper
to_lower c = if is_upper c then c + 32 else c

-- `s.eq_ignore_ascii_case(t)`.
unfoldable pub eq_ignore_case : String → String → Bool
unfolding to_lower
eq_ignore_case String.[] String.[] = true
eq_ignore_case String.[] (String.◌∷◌ d t) = false
eq_ignore_case (String.◌∷◌ c s) String.[] = false
eq_ignore_case (String.◌∷◌ c s) (String.◌∷◌ d t) =
    to_lower (code c) == to_lower (code d) && eq_ignore_case s t
