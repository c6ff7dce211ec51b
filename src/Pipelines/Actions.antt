-- ===== src/Pipelines/Actions.antt =====
-- The actions of backend/src/pipelines.rs on a pipeline: run now, pause, resume, stop a run and
-- delete. The world is what an action changes: the rate limiter, the writing calls that left the
-- server, in their order, and the lines of the audit (`pipeline_event` of backend/src/audit.rs).
-- An action that starts or stops a run answers the run; `run_view` copies its fields for the
-- caller.
pub mod Checks
pub mod Handler
mod Found
pub mod Startable
pub mod Starts
pub mod Stops
pub mod Deletes
pub mod Hidden
pub mod Quiet
pub mod Audits
mod Tests
use stardelt_nova.Prelude.{ℕ, String, Bool, true, false, Option, none, some, List, [], ◌∷◌}
use stardelt_nova.Prelude.Results.{Result, ok, err, map_err}
use stardelt_nova.Text.{◌&◌}
use stardelt_nova.Identity.{Identity}
use stardelt_nova.Airflow.{AirflowClient, DagSummary, DagRun}
use stardelt_nova.Values.{ValueApi}
use stardelt_nova.Pipelines.Answers.{
  Fail, ActionError, refusal, error, no_such_run, pipeline_not_loaded, too_many_runs,
  scheduler_fail, airflow_error, resource_write_fail,
}
use Checks.{
  Services, PipelineResources, ready_to_run, no_active_run, ready_to_switch, run_to_stop,
  ready_to_delete,
}
use Handler.{
  Call, trigger, set_paused, mark_run_failed, delete_resource, World, take_slot_or, send, ◌then◌,
  line_of, audited,
}

abbrev pub note_of : Identity → String
note_of who = "Started from Nova by " & who.display_name

abbrev run_id_of : DagRun → Option String
run_id_of run = some run.dag_run_id

-- The latest run, if the scheduler answers.
abbrev pub latest : {E : Type 0} → Result E (List DagRun) → Option DagRun
latest (err e) = none
latest (ok []) = none
latest (ok (run ∷ runs)) = some run

module _ {V : Type 0} (api : ValueApi V) (services : Services V) (who : Identity)
    (namespace name : String) where
  -- `now` is the clock's answer to the limiter, `date` the text of `now_rfc3339`.
  unfoldable pub run_now_inner : ℕ → String → World → World × Result ActionError DagRun
  run_now_inner now date w =
      (w, ready_to_run api who services namespace name) then λ (airflow, dag_id, resource) w1.
      (take_slot_or w1 now who.sub (refusal "rate-limited" too_many_runs) then λ _ w2.
      ((w2, no_active_run api who airflow dag_id resource) then λ _ w3. (
        send w3 (trigger dag_id date (some (note_of who))),
        map_err (λ e. error (scheduler_fail e)) (airflow.trigger dag_id date (some (note_of who))),
      )))

  unfoldable pub run_now : ℕ → String → World → World × Result Fail DagRun
  run_now now date w =
      audited (line_of "run" who namespace name run_id_of none) (run_now_inner now date w)

  -- The answer holds what the view is made of: the resource, the DAG as the scheduler now has it
  -- and the latest run.
  unfoldable pub set_paused_inner :
      Bool → World → World × Result ActionError (V × DagSummary × Option DagRun)
  set_paused_inner paused w =
      (w, ready_to_switch api who services namespace name) then λ (airflow, dag_id, resource) w1.
      ((
        send w1 (set_paused dag_id paused),
        map_err (airflow_error (refusal "not-loaded" pipeline_not_loaded))
            (airflow.set_paused dag_id paused),
      )
        then λ dag w2. (w2, ok (resource, dag, latest (airflow.runs dag_id 1))))

  unfoldable pub set_paused_action :
      String → Bool → World → World × Result Fail (V × DagSummary × Option DagRun)
  set_paused_action action paused w =
      audited (line_of action who namespace name (λ _. none) none) (set_paused_inner paused w)

  unfoldable pub pause_pipeline : World → World × Result Fail (V × DagSummary × Option DagRun)
  unfolding set_paused_action
  pause_pipeline w = set_paused_action "pause" true w

  unfoldable pub resume_pipeline : World → World × Result Fail (V × DagSummary × Option DagRun)
  unfolding set_paused_action
  resume_pipeline w = set_paused_action "resume" false w

  unfoldable pub stop_run_inner : String → World → World × Result ActionError DagRun
  stop_run_inner run_id w =
      (w, run_to_stop api who services namespace name run_id) then λ (airflow, dag_id, run) w1. (
        send w1 (mark_run_failed dag_id run.dag_run_id),
        map_err (airflow_error (refusal "not-found" no_such_run))
            (airflow.mark_run_failed dag_id run.dag_run_id),
      )

  unfoldable pub stop_run : String → World → World × Result Fail DagRun
  stop_run run_id w =
      audited (line_of "stop" who namespace name run_id_of (some run_id)) (stop_run_inner run_id w)

  unfoldable pub delete_pipeline_inner : World → World × Result ActionError (Unit {0})
  delete_pipeline_inner w =
      (w, ready_to_delete api who services namespace name) then λ resources w1. (
        send w1 (delete_resource name),
        map_err (λ e. error (resource_write_fail e)) (resources.delete name),
      )

  unfoldable pub delete_pipeline : World → World × Result Fail (Unit {0})
  delete_pipeline w =
      audited (line_of "delete" who namespace name (λ _. none) none) (delete_pipeline_inner w)
