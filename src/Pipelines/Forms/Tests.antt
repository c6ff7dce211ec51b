-- ===== src/Pipelines/Forms/Tests.antt =====
-- A statement with placeholders, its parameters and its options.
use stardelt_nova.Prelude.{zero, ◌≡◌, refl, String, none, some, [], ◌∷◌}
use stardelt_nova.Prelude.Results.{ok, err}
use stardelt_nova.Prelude.Int.{pos}
use stardelt_nova.Text.{
  head_is, has_char, trim, trim_end, strip_suffix, strip_prefix, is_alpha, is_alnum,
}
use stardelt_nova.Map.{Map, get, contains_key}
use stardelt_nova.Pipelines.Forms.{
  PipelineOptions, PipelineOptionsView, resolve, in_bounds, statement_of, validate_sql,
}
use stardelt_nova.Pipelines.Forms.Placeholders.{
  check_placeholders, check_from, fill_placeholders, fill_from, opens, is_known, value_of,
  fill_placeholders-known,
}

abbrev params : Map String
params = ("day", "mon") ∷ []

abbrev statement : String
statement = "do ${params.day} ${1} ${run.id}"

filled : fill_placeholders statement "2026" "r1" params ≡ "do mon ${1} r1"
unfolding fill_placeholders fill_from opens head_is is_alnum is_alpha value_of strip_prefix get
filled = refl

checked : check_placeholders statement params ≡ ok tt
unfolding check_placeholders check_from opens head_is is_alnum is_known strip_prefix contains_key
checked = refl

unknown : check_placeholders "x ${params.week}" params ≡ err "unknown placeholder ${params.week}"
unfolding check_placeholders check_from opens head_is is_alnum is_known strip_prefix contains_key
unknown = refl

fill_placeholders-known_example :
    fill_from (λ name. "?") (λ name. value_of "2026" "r1" name params) zero statement
    ≡ fill_placeholders statement "2026" "r1" params
fill_placeholders-known_example =
    fill_placeholders-known (λ name. "?") statement "2026" "r1" params checked

abbrev options : PipelineOptions
options = record {
  retries = some (pos 2);
  backoff_minutes = none;
  timeout_minutes = none;
  concurrency = some " Allow ";
}

abbrev stored : PipelineOptionsView
stored = record {
  retries = pos 2;
  backoff_minutes = pos 5;
  timeout_minutes = pos 120;
  concurrency = "Allow";
}

resolved : resolve options ≡ ok stored
unfolding resolve in_bounds trim
resolved = refl

trimmed : validate_sql " select 1 ; " ≡ ok "select 1"
unfolding validate_sql statement_of strip_suffix trim trim_end has_char
trimmed = refl
