-- ===== src/Airflow.antt =====
-- The scheduler as backend/src/airflow.rs sees it: what Airflow answers, and the id of the DAG of
-- a pipeline. The client's methods are HTTP calls; `AirflowClient` holds one answer for each.
use stardelt_nova.Prelude.{ℕ, String, Bool, Option, List}
use stardelt_nova.Prelude.Results.{Result}
use stardelt_nova.Text.{◌&◌}

pub data AirflowError : Type 0 where
  not_configured : AirflowError
  unavailable : String → AirflowError
  refused : String → AirflowError
  not_found : AirflowError
  rejected : String → AirflowError

-- The fields of `DagSummary` that the pipelines read.
pub record DagSummary : Type 0 where
  pub dag_id : String
  pub is_paused : Option Bool
  pub next_dagrun_run_after : Option String

-- The fields of `DagRun` that the pipelines read.
pub record DagRun : Type 0 where
  pub dag_run_id : String
  pub state : Option String
  pub run_type : Option String
  pub logical_date : Option String
  pub start_date : Option String
  pub end_date : Option String
  pub note : Option String
  pub triggered_by : Option String

-- The answers of the scheduler to the calls that the actions on a pipeline make: to `dag`,
-- `runs`, `trigger` (with the DAG id, the logical date and the note), `set_paused` and
-- `mark_run_failed`. An action makes each call at most once.
pub record AirflowClient : Type 0 where
  pub dag : String → Result AirflowError DagSummary
  pub runs : String → ℕ → Result AirflowError (List DagRun)
  pub trigger : String → String → Option String → Result AirflowError DagRun
  pub set_paused : String → Bool → Result AirflowError DagSummary
  pub mark_run_failed : String → String → Result AirflowError DagRun

unfoldable pub dag_id_for : String → String → String
dag_id_for namespace name = namespace & "__" & name
