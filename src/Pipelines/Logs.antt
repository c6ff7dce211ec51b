-- ===== src/Pipelines/Logs.antt =====
-- The log of a task: `strip_ansi`, `is_group_marker` and `log_view` of backend/src/pipelines.rs,
-- with `LogEvent` and `LogPage` of backend/src/airflow.rs.
pub mod Bounds
mod Tests
use stardelt_nova.Prelude.{
  ℕ, zero, suc, ◌+◌, ◌*◌, code, String, Bool, true, false, ◌||◌, not, Option, none, some, List, [],
  ◌∷◌, leb, ltb, ◌==◌, is_some, if◌then◌else◌,
}
use stardelt_nova.Text.{is_digit, is_alpha, byte_len, strip_prefix, trim_start}

pub record LogEvent : Type 0 where
  pub timestamp : Option String
  pub level : Option String
  pub event : Option String
  pub sources : List String

pub record LogPage : Type 0 where
  pub content : List LogEvent
  pub continuation_token : Option String

pub record LogLine : Type 0 where
  pub timestamp : Option String
  pub level : Option String
  pub text : String

pub record LogView : Type 0 where
  pub lines : List LogLine
  pub next_token : Option String
  pub truncated : Bool

-- The characters of an escape sequence after its bracket, with its last letter; none where the
-- text does not go on as one.
unfoldable pub sequence_end : String → Option ℕ
sequence_end String.[] = none
sequence_end (String.◌∷◌ c s) =
    let rest = sequence_end s in
    if is_digit (code c) || code c == b';'
    then elim rest [ none ↦ none | some n ↦ some (suc n) ]
    else if is_alpha (code c)
    then some 1
    else none

-- How many characters after the first belong to the escape sequence that begins here.
unfoldable pub escape_rest : String → Option ℕ
unfolding sequence_end
escape_rest String.[] = none
escape_rest (String.◌∷◌ c String.[]) = none
escape_rest (String.◌∷◌ c (String.◌∷◌ d s)) =
    if code c == 27
    then if code d == b'['
      then elim (sequence_end s) [ none ↦ none | some n ↦ some (suc n) ]
      else none
    else none

-- `skip` counts the characters of an escape sequence that are still to be dropped.
unfoldable pub strip_from : ℕ → String → String
unfolding escape_rest
strip_from skip String.[] = ""
strip_from (suc skip) (String.◌∷◌ c s) = strip_from skip s
strip_from zero (String.◌∷◌ c s) = elim (escape_rest (String.◌∷◌ c s)) [
  | some n ↦ strip_from n s
  | none ↦ String.◌∷◌ c (strip_from zero s)
]

unfoldable pub strip_ansi : String → String
unfolding strip_from
strip_ansi text = strip_from zero text

abbrev text_or_empty : Option String → String
text_or_empty none = ""
text_or_empty (some s) = s

abbrev no_sources : List String → Bool
no_sources [] = true
no_sources (s ∷ ss) = false

abbrev is_group : Option String → Bool
is_group none = false
is_group (some s) = is_some (strip_prefix "::group::" (trim_start s))

unfoldable pub is_group_marker : LogEvent → Bool
is_group_marker event = not (no_sources event.sources) || is_group event.event

abbrev pub max_log_lines : ℕ
max_log_lines = 2000

abbrev pub max_log_bytes : ℕ
max_log_bytes = 512 * 1024

unfoldable pub line_of : LogEvent → LogLine
line_of event = record {
  timestamp = event.timestamp;
  level = event.level;
  text = strip_ansi (text_or_empty event.event);
}

-- The loop, with the lines and bytes pushed so far: the lines that it still pushes, and whether
-- it was cut.
unfoldable pub take_lines : List LogEvent → ℕ → ℕ → List LogLine × Bool
take_lines [] count bytes = ([], false)
take_lines (event ∷ events) count bytes =
    let line = line_of event in
    let skipped = take_lines events count bytes in
    let pushed = take_lines events (suc count) (bytes + byte_len line.text) in
    if is_group_marker event
    then skipped
    else if leb max_log_lines count || ltb max_log_bytes (bytes + byte_len line.text)
    then ([], true)
    else (line ∷ pushed.0, pushed.1)

unfoldable pub log_view : LogPage → LogView
log_view page =
    let (lines, truncated) = take_lines page.content 0 0 in
    record { lines = lines; next_token = page.continuation_token; truncated = truncated }
