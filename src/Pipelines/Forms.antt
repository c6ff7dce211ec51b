-- ===== src/Pipelines/Forms.antt =====
-- The fields of the form that schedules a pipeline: `validate_sql`, `validate_params` and
-- `PipelineOptions::resolve` of backend/src/pipelines.rs.
pub mod Placeholders
pub mod Laws
mod Tests
use Prim.Native.String.{len}
use stardelt_nova.Prelude.{
  ℕ, String, Bool, true, false, not, ◌&&◌, ◌||◌, Option, none, some, List, length, leb, ltb, ◌==◌,
  str_eq, if◌then◌else◌,
}
use stardelt_nova.Prelude.Results.{Result, ok, err, ◌>>=◌, ◌>>◌, guard, each}
use stardelt_nova.Prelude.Int.{ℤ, pos, negsuc}
use stardelt_nova.Text.{
  is_lower, is_digit, is_empty, all_chars, head_is, last_is, has_char, byte_len, trim, trim_end,
  strip_suffix,
}
use stardelt_nova.Map.{Map}
use stardelt_nova.Names.{valid_param_name}

abbrev pub max_statement_chars : ℕ
max_statement_chars = 20000

abbrev pub max_params : ℕ
max_params = 16

abbrev pub max_param_value_chars : ℕ
max_param_value_chars = 256

abbrev pub invalid_sql : String
invalid_sql = "give the statement to run (up to 20,000 characters)"

abbrev or_else {ℓ} : {A : Type ℓ} → Option A → A → A
or_else none a = a
or_else (some b) a = b

-- The trimmed text without one `;` at its end.
unfoldable pub statement_of : String → String
statement_of sql = elim (strip_suffix b';' (trim sql)) [ none ↦ trim sql | some s ↦ trim_end s ]

unfoldable pub validate_sql : String → Result String String
validate_sql sql = do
  guard
      (not (
        is_empty (statement_of sql)
        || ltb max_statement_chars (len (statement_of sql))
        || has_char 0 (statement_of sql)))
      invalid_sql
  ok (statement_of sql)

unfoldable pub check_param : String × String → Result String (Unit {0})
check_param (name, value) = do
  guard (valid_param_name name) "parameter names are lower-case letters, digits and underscores"
  guard (not (has_char 0 value)) "a parameter value cannot contain NUL"
  guard (leb (len value) max_param_value_chars) "a parameter value is at most 256 characters"

unfoldable pub validate_params : Map String → Result String (Unit {0})
validate_params params = do
  guard (leb (length params) max_params) "at most 16 parameters"
  each check_param params

pub record PipelineOptions : Type 0 where
  pub retries : Option ℤ
  pub backoff_minutes : Option ℤ
  pub timeout_minutes : Option ℤ
  pub concurrency : Option String

pub record PipelineOptionsView : Type 0 where
  pub retries : ℤ
  pub backoff_minutes : ℤ
  pub timeout_minutes : ℤ
  pub concurrency : String

-- `(low..=high).contains(&n)`.
unfoldable pub in_bounds : ℕ → ℕ → ℤ → Bool
in_bounds low high (pos n) = leb low n && leb n high
in_bounds low high (negsuc n) = false

abbrev pub run_mode : Option String → String
run_mode none = "Forbid"
run_mode (some s) = trim s

-- The options with the defaults filled in.
abbrev pub with_defaults : PipelineOptions → PipelineOptionsView
with_defaults o = record {
  retries = or_else o.retries (pos 1);
  backoff_minutes = or_else o.backoff_minutes (pos 5);
  timeout_minutes = or_else o.timeout_minutes (pos 120);
  concurrency = run_mode o.concurrency;
}

unfoldable pub resolve : PipelineOptions → Result String PipelineOptionsView
resolve o = do
  guard (in_bounds 0 5 (with_defaults o).retries) "retries are 0 to 5"
  guard (in_bounds 1 60 (with_defaults o).backoff_minutes)
      "the wait between retries is 1 to 60 minutes"
  guard (in_bounds 1 720 (with_defaults o).timeout_minutes) "the time limit is 1 to 720 minutes"
  guard
      (str_eq (with_defaults o).concurrency "Allow"
        || str_eq (with_defaults o).concurrency "Forbid")
      "runs are Forbid or Allow"
  ok (with_defaults o)
