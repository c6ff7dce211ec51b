-- ===== src/Pipelines/Answers.antt =====
-- The refusals and failures of backend/src/pipelines.rs: the answer for the caller (`Fail` of
-- backend/src/connection_routes.rs) and the outcome for the audit.
use stardelt_nova.Prelude.{ℕ, String}
use stardelt_nova.Text.{◌&◌}
use stardelt_nova.Airflow.{AirflowError, not_configured, unavailable, refused, not_found, rejected}

pub data ResourceError : Type 0 where
  exists conflict : ResourceError
  cluster_unavailable : String → ResourceError

pub record Fail : Type 0 where
  pub status : ℕ
  pub message : String

pub record ActionError : Type 0 where
  pub fail : Fail
  pub outcome : String

abbrev failing : ℕ → String → Fail
failing status message = record { status = status; message = message }

-- `ActionError::refused` and `ActionError::error`.
abbrev pub refusal : String → Fail → ActionError
refusal why fail = record { fail = fail; outcome = "refused:" & why }

abbrev pub error : Fail → ActionError
error fail = record { fail = fail; outcome = "error" }

abbrev pub no_cluster : Fail
no_cluster = failing 503 "no cluster connection"

abbrev pub scheduler_not_configured : Fail
scheduler_not_configured = failing 503 "the scheduler is not configured"

abbrev pub no_such_pipeline : Fail
no_such_pipeline = failing 404 "no such pipeline"

abbrev pub no_such_run : Fail
no_such_run = failing 404 "no such run"

abbrev pub pipeline_not_loaded : Fail
pipeline_not_loaded = failing 409 "the scheduler has not loaded this pipeline yet"

abbrev pub pipeline_paused : Fail
pipeline_paused = failing 409 "the pipeline is paused: resume it first"

abbrev pub run_already_active : Fail
run_already_active = failing 409 "a run is already active: wait for it or stop it"

abbrev pub run_not_active : Fail
run_not_active = failing 409 "the run is not active"

abbrev pub too_many_runs : Fail
too_many_runs = failing 429 "too many runs started; wait a minute"

abbrev pub pipeline_exists : Fail
pipeline_exists = failing 409 "a pipeline with this name already exists"

abbrev pub managed_outside : Fail
managed_outside =
    failing 409 "this pipeline is managed outside Nova (kubectl or Git); change it there"

abbrev pub pipeline_changed : Fail
pipeline_changed = failing 409 "the pipeline changed while you edited it: reload"

abbrev no_answer : Fail
no_answer = failing 502 "the scheduler did not answer"

abbrev pub scheduler_fail : AirflowError → Fail
scheduler_fail not_configured = scheduler_not_configured
scheduler_fail (unavailable message) = no_answer
scheduler_fail (refused message) = no_answer
scheduler_fail not_found = no_answer
scheduler_fail (rejected message) = no_answer

-- The answer to a call where a missing object has a meaning of its own.
abbrev pub airflow_error : ActionError → AirflowError → ActionError
airflow_error missing not_found = missing
airflow_error missing not_configured = error (scheduler_fail not_configured)
airflow_error missing (unavailable message) = error (scheduler_fail (unavailable message))
airflow_error missing (refused message) = error (scheduler_fail (refused message))
airflow_error missing (rejected message) = error (scheduler_fail (rejected message))

abbrev cluster_no_answer : Fail
cluster_no_answer = failing 502 "the cluster did not answer"

abbrev pub resource_fail : ResourceError → Fail
resource_fail (cluster_unavailable message) = cluster_no_answer
resource_fail exists = cluster_no_answer
resource_fail conflict = cluster_no_answer

abbrev pub resource_write_fail : ResourceError → Fail
resource_write_fail exists = pipeline_exists
resource_write_fail conflict = pipeline_changed
resource_write_fail (cluster_unavailable message) = cluster_no_answer
