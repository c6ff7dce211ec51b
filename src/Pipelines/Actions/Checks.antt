-- ===== src/Pipelines/Actions/Checks.antt =====
-- What an action decides before it changes anything, in the order of the source.
use stardelt_nova.Prelude.{
  ℕ, String, Bool, false, not, ◌||◌, Option, none, some, List, [], ◌∷◌, any, str_eq, if◌then◌else◌,
}
use stardelt_nova.Prelude.Results.{Result, ok, err, ◌>>=◌, ◌>>◌, guard, map_err}
use stardelt_nova.Identity.{Identity}
use stardelt_nova.Airflow.{AirflowClient, DagRun, dag_id_for}
use stardelt_nova.Values.{ValueApi}
use stardelt_nova.Pipelines.Resource.{spec_of, may_act, concurrency_of, nova_managed}
use stardelt_nova.Pipelines.Answers.{
  ResourceError, Fail, ActionError, refusal, error, no_cluster, scheduler_not_configured,
  no_such_pipeline, no_such_run, pipeline_not_loaded, pipeline_paused, run_already_active,
  run_not_active, managed_outside, airflow_error, resource_fail,
}

-- `LATEST_RUNS` and `ACTIVE_RUNS`.
abbrev pub latest_runs : ℕ
latest_runs = 20

abbrev pub active_runs : ℕ
active_runs = 5

-- The answers of the cluster to the calls that the actions make.
pub record PipelineResources (V : Type 0) : Type 0 where
  pub get : String → Result ResourceError (Option V)
  pub delete : String → Result ResourceError (Unit {0})

-- What an action finds: the two clients, where they are configured, and the server's own
-- namespace (`crate::cluster::namespace`).
pub record Services (V : Type 0) : Type 0 where
  pub resources : Option (PipelineResources V)
  pub airflow : Option AirflowClient
  pub own_namespace : String

abbrev pub with_cluster :
    {V : Type 0} → Option AirflowClient → String → PipelineResources V → Services V
with_cluster airflow own_namespace resources = record {
  resources = some resources;
  airflow = airflow;
  own_namespace = own_namespace;
}

-- `ok_or_else` with a failure that is no refusal.
abbrev pub need : {A : Type 0} → Fail → Option A → Result ActionError A
need fail none = err (error fail)
need fail (some a) = ok a

-- `matches!(state, Some("queued") | Some("running"))`.
abbrev state_is_active : Option String → Bool
state_is_active none = false
state_is_active (some state) = str_eq state "queued" || str_eq state "running"

abbrev pub is_active : DagRun → Bool
is_active run = state_is_active run.state

abbrev pub is_paused : Option Bool → Bool
is_paused none = false
is_paused (some paused) = paused

abbrev pub find_run : String → List DagRun → Option DagRun
find_run run_id [] = none
find_run run_id (run ∷ runs) =
    if str_eq run.dag_run_id run_id then some run else find_run run_id runs

abbrev pub found : {A : Type 0} → Fail → Option A → Result Fail A
found fail none = err fail
found fail (some a) = ok a

module _ {V : Type 0} (api : ValueApi V) (who : Identity) where
  unfoldable pub load_allowed :
      String
      → PipelineResources V
      → String
      → String
      → (Identity → V → Bool)
      → Result Fail (String × V)
  load_allowed own_namespace resources namespace name allow = do
    guard (str_eq namespace own_namespace) no_such_pipeline
    answer ← map_err resource_fail (resources.get name)
    resource ← found no_such_pipeline answer
    guard (allow who (spec_of api resource)) no_such_pipeline
    ok (dag_id_for namespace name, resource)

  unfoldable pub load_actionable :
      String → PipelineResources V → String → String → Result ActionError (String × V)
  unfolding load_allowed
  load_actionable own_namespace resources namespace name =
      map_err (refusal "not-found")
        (load_allowed own_namespace resources namespace name (may_act api))

  unfoldable pub ready_to_run :
      Services V → String → String → Result ActionError (AirflowClient × String × V)
  unfolding load_actionable
  ready_to_run services namespace name = do
    resources ← need no_cluster services.resources
    airflow ← need scheduler_not_configured services.airflow
    target ← load_actionable services.own_namespace resources namespace name
    dag ← map_err (airflow_error (refusal "not-loaded" pipeline_not_loaded)) (airflow.dag target.0)
    guard (not (is_paused dag.is_paused)) (refusal "paused" pipeline_paused)
    ok (airflow, target.0, target.1)

  -- The activity check, which `Allow` skips.
  unfoldable pub no_active_run : AirflowClient → String → V → Result ActionError (Unit {0})
  no_active_run airflow dag_id resource =
      let check : Result ActionError (Unit {0}) = (do
        runs ←
            map_err (airflow_error (refusal "not-loaded" pipeline_not_loaded))
              (airflow.runs dag_id active_runs)
        guard (not (any is_active runs)) (refusal "already-active" run_already_active)) in
      if str_eq (concurrency_of api (spec_of api resource)) "Allow" then ok tt else check

  unfoldable pub run_to_stop :
      Services V → String → String → String → Result ActionError (AirflowClient × String × DagRun)
  unfolding load_actionable
  run_to_stop services namespace name run_id = do
    resources ← need no_cluster services.resources
    airflow ← need scheduler_not_configured services.airflow
    target ← load_actionable services.own_namespace resources namespace name
    runs ←
        map_err (airflow_error (refusal "not-found" no_such_run))
          (airflow.runs target.0 latest_runs)
    run ← map_err (refusal "not-found") (found no_such_run (find_run run_id runs))
    guard (is_active run) (refusal "not-active" run_not_active)
    ok (airflow, target.0, run)

  unfoldable pub ready_to_delete :
      Services V → String → String → Result ActionError (PipelineResources V)
  unfolding load_actionable
  ready_to_delete services namespace name = do
    resources ← need no_cluster services.resources
    target ← load_actionable services.own_namespace resources namespace name
    guard (nova_managed api target.1) (refusal "not-nova" managed_outside)
    ok resources

  unfoldable pub ready_to_switch :
      Services V → String → String → Result ActionError (AirflowClient × String × V)
  unfolding load_actionable
  ready_to_switch services namespace name = do
    resources ← need no_cluster services.resources
    airflow ← need scheduler_not_configured services.airflow
    target ← load_actionable services.own_namespace resources namespace name
    ok (airflow, target.0, target.1)
