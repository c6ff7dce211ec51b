-- ===== src/Pipelines/Forms/Placeholders.antt =====
-- The placeholders of a statement: `next_placeholder`, `check_placeholders` and
-- `fill_placeholders` of backend/src/pipelines.rs. The loops there go on at an offset; here the
-- characters that are still to be skipped are counted, and the text is walked once. A `${` that
-- opens no placeholder is skipped by one character, not two: no placeholder begins with `{`.
use Prim.Native.String.{len}
use stardelt_nova.Prelude.{
  ℕ, zero, suc, ◌+◌, ◌≡◌, refl, code, Char, String, Bool, true, false, ◌&&◌, ◌||◌, Option, none,
  some, ◌==◌, str_eq, arith, Option-cases, inl, inr, is_some, if◌then◌else◌,
}
use stardelt_nova.Prelude.Results.{Result, ok, ◌>>◌, guard}
use stardelt_nova.Text.{is_alpha, is_alnum, head_is, strip_prefix, ◌&◌}
use stardelt_nova.Map.{Map, get, contains_key}

is_name_char : ℕ → Bool
is_name_char c = is_alnum c || c == b'_' || c == b'.'

-- The name characters at the start, and the text behind them.
unfoldable pub span_name : String → String × String
unfolding is_name_char
span_name String.[] = ("", "")
span_name (String.◌∷◌ c s) =
    let (name, rest) = span_name s in
    if is_name_char (code c) then (String.◌∷◌ c name, rest) else ("", String.◌∷◌ c s)

abbrev begins_name : ℕ → Bool
begins_name c = is_alpha c || c == b'_'

abbrev closes : ℕ → Bool
closes c = c == b'}'

-- The name of the placeholder that begins here, if one does.
unfoldable pub opens : String → Option String
unfolding span_name
opens String.[] = none
opens (String.◌∷◌ c String.[]) = none
opens (String.◌∷◌ c (String.◌∷◌ d s)) =
    let (name, rest) = span_name s in
    if code c == b'$' && code d == b'{' && head_is begins_name name && head_is closes rest
    then some name
    else none

abbrev param_value : Option String → Map String → Option String
param_value none params = none
param_value (some key) params = get key params

-- The value of a placeholder.
unfoldable pub value_of : String → String → String → Map String → Option String
value_of run_date run_id name params =
    if str_eq name "run.date"
    then some run_date
    else if str_eq name "run.id"
    then some run_id
    else param_value (strip_prefix "params." name) params

abbrev param_there : Option String → Map String → Bool
param_there none params = false
param_there (some key) params = contains_key key params

unfoldable pub is_known : String → Map String → Bool
is_known name params =
    str_eq name "run.date"
    || str_eq name "run.id"
    || param_there (strip_prefix "params." name) params

-- After its first character a placeholder has its brace, its name and its closing brace.
unfoldable pub check_from : ℕ → String → Map String → Result String (Unit {0})
check_from skip String.[] params = ok tt
check_from (suc skip) (String.◌∷◌ c s) params = check_from skip s params
check_from zero (String.◌∷◌ c s) params = elim (opens (String.◌∷◌ c s)) [
  | none ↦ check_from zero s params
  | some name ↦
      guard (is_known name params) ("unknown placeholder ${" & name & "}")
      >> check_from (len name + 2) s params
]

unfoldable pub check_placeholders : String → Map String → Result String (Unit {0})
check_placeholders statement params = check_from zero statement params

abbrev filled : Option String → String → String → String
filled none unknown rest = unknown & rest
filled (some text) unknown rest = text & rest

-- A character, or a placeholder; `rest` fills the text behind it, less the characters to skip.
abbrev fill_piece :
    Option String → (String → String) → (String → Option String) → Char → (ℕ → String) → String
fill_piece none unknown value c rest = String.◌∷◌ c (rest zero)
fill_piece (some name) unknown value c rest =
    filled (value name) (unknown name) (rest (len name + 2))

-- `unknown` is what a placeholder without a value is replaced by.
unfoldable pub fill_from : (String → String) → (String → Option String) → ℕ → String → String
fill_from unknown value skip String.[] = ""
fill_from unknown value (suc skip) (String.◌∷◌ c s) = fill_from unknown value skip s
fill_from unknown value zero (String.◌∷◌ c s) =
    fill_piece (opens (String.◌∷◌ c s)) unknown value c (λ k. fill_from unknown value k s)

abbrev pub left_alone : String → String
left_alone name = "${" & name & "}"

unfoldable pub fill_placeholders : String → String → String → Map String → String
fill_placeholders statement run_date run_id params =
    fill_from left_alone (λ name. value_of run_date run_id name params) zero statement

known_value :
    (run_date run_id name : String) (params : Map String)
    → is_known name params ≡ true
    → is_some (value_of run_date run_id name params) ≡ true
unfolding is_known value_of contains_key
known_value run_date run_id name params h = elim (Option-cases (strip_prefix "params." name)) [
  | inl other ↦ ground arith
  | inr (key, e) ↦ ground arith
]

same_fill :
    (unknown : String → String) (run_date run_id : String) (params : Map String) (skip : ℕ)
    (statement : String)
    → check_from skip statement params ≡ ok tt
    → fill_from unknown (λ name. value_of run_date run_id name params) skip statement
      ≡ fill_from left_alone (λ name. value_of run_date run_id name params) skip statement
unfolding check_from fill_from
same_fill unknown run_date run_id params skip String.[] h = refl
same_fill unknown run_date run_id params (suc skip) (String.◌∷◌ c s) h =
    same_fill unknown run_date run_id params skip s h
same_fill unknown run_date run_id params zero (String.◌∷◌ c s) h =
    elim (Option-cases (opens (String.◌∷◌ c s))) [
      | inl plain ↦
          rw (fill_from, plain)
            (cc (same_fill unknown run_date run_id params zero s (ground arith)))
      | inr (name, e) ↦
          let known : is_known name params ≡ true = ground arith in
          let later : check_from (len name + 2) s params ≡ ok tt = ground arith in
          let there = known_value run_date run_id name params known in
          elim (Option-cases (value_of run_date run_id name params)) [
            | inl nothing ↦ ground arith
            | inr (text, v) ↦
                rw (fill_from, e, v)
                  (cc (same_fill unknown run_date run_id params (len name + 2) s later))
          ]
    ]

-- In a statement whose placeholders were checked, every placeholder has a value: whatever an
-- unknown one were replaced by, the filled statement is the same. The branch of
-- `fill_placeholders` for an unknown name is never taken.
pub fill_placeholders-known :
    (unknown : String → String) (statement run_date run_id : String) (params : Map String)
    → check_placeholders statement params ≡ ok tt
    → fill_from unknown (λ name. value_of run_date run_id name params) zero statement
      ≡ fill_placeholders statement run_date run_id params
unfolding check_placeholders fill_placeholders
fill_placeholders-known unknown statement run_date run_id params h =
    same_fill unknown run_date run_id params zero statement h
