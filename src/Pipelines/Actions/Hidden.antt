-- ===== src/Pipelines/Actions/Hidden.antt =====
-- A pipeline that the caller may not see looks like one that is not there.
use stardelt_nova.Prelude.{
  ℕ, ◌≡◌, inl, inr, String, Bool, false, Option, none, some, str_eq, Bool-cases,
}
use stardelt_nova.Prelude.Results.{ok, err}
use stardelt_nova.Identity.{Identity}
use stardelt_nova.Airflow.{AirflowClient}
use stardelt_nova.Values.{ValueApi}
use stardelt_nova.Pipelines.Resource.{spec_of, may_act, visible}
use stardelt_nova.Pipelines.Answers.{ActionError, refusal, no_such_pipeline}
use stardelt_nova.Pipelines.Actions.{
  run_now, run_now_inner, set_paused_action, set_paused_inner, stop_run, stop_run_inner,
  delete_pipeline, delete_pipeline_inner,
}
use stardelt_nova.Pipelines.Actions.Checks.{
  PipelineResources, load_allowed, load_actionable, with_cluster, ready_to_run, ready_to_switch,
  run_to_stop, ready_to_delete,
}
use stardelt_nova.Pipelines.Actions.Handler.{World}

module _ {V : Type 0} (api : ValueApi V) (who : Identity) (name : String)
    (hidden absent : PipelineResources V) (resource : V)
    (stored : hidden.get name ≡ ok (some resource))
    (foreign : visible api who (spec_of api resource) ≡ false)
    (nothing : absent.get name ≡ ok none) where
  same_load :
      (own_namespace namespace : String)
      → load_actionable api who own_namespace hidden namespace name
        ≡ load_actionable api who own_namespace absent namespace name
  unfolding load_actionable load_allowed may_act
  same_load own_namespace namespace = elim (Bool-cases (str_eq namespace own_namespace)) [
    | inl here ↦ rw (here, stored, nothing, foreign)
    | inr elsewhere ↦ rw elsewhere
  ]

  refused :
      (own_namespace namespace : String)
      → (problem : ActionError) × (load_actionable api who own_namespace hidden namespace name
          ≡ err problem)
        × (load_actionable api who own_namespace absent namespace name ≡ err problem)
  unfolding load_actionable load_allowed may_act
  refused own_namespace namespace = elim (Bool-cases (str_eq namespace own_namespace)) [
    | inl here ↦
        (refusal "not-found" no_such_pipeline, rw (here, stored, foreign), rw (here, nothing))
    | inr elsewhere ↦ (refusal "not-found" no_such_pipeline, rw elsewhere, rw elsewhere)
  ]

  same_delete :
      (airflow : Option AirflowClient) (own_namespace namespace : String) (w : World)
      → delete_pipeline api (with_cluster airflow own_namespace hidden) who namespace name w
        ≡ delete_pipeline api (with_cluster airflow own_namespace absent) who namespace name w
  unfolding delete_pipeline delete_pipeline_inner ready_to_delete
  same_delete airflow own_namespace namespace w =
      let (problem, p, q) = refused own_namespace namespace in rw (p, q)

  -- An action on a pipeline that the caller may not see, be it to run, to pause or resume, to
  -- stop a run or to delete, has the same answer and leaves the same world (calls, limiter and
  -- audit) as when the cluster has no resource of that name.
  pub hidden-absent :
      (airflow : Option AirflowClient) (own_namespace namespace : String) (w : World)
      → ((now : ℕ) (date : String)
          → run_now api (with_cluster airflow own_namespace hidden) who namespace name now date w
            ≡ run_now api (with_cluster airflow own_namespace absent) who namespace name now date w)
        × ((action : String) (paused : Bool)
            → set_paused_action api
                (with_cluster airflow own_namespace hidden)
                who
                namespace
                name
                action
                paused
                w
              ≡ set_paused_action api
                  (with_cluster airflow own_namespace absent)
                  who
                  namespace
                  name
                  action
                  paused
                  w)
        × ((run_id : String)
            → stop_run api (with_cluster airflow own_namespace hidden) who namespace name run_id w
              ≡ stop_run api
                  (with_cluster airflow own_namespace absent)
                  who
                  namespace
                  name
                  run_id
                  w)
        × (delete_pipeline api (with_cluster airflow own_namespace hidden) who namespace name w
            ≡ delete_pipeline api (with_cluster airflow own_namespace absent) who namespace name w)
  unfolding run_now run_now_inner ready_to_run set_paused_action set_paused_inner ready_to_switch
      stop_run stop_run_inner run_to_stop
  hidden-absent airflow own_namespace namespace w =
      let same = same_load own_namespace namespace in
      (
        λ now date. rw same,
        λ action paused. rw same,
        λ run_id. rw same,
        same_delete airflow own_namespace namespace w,
      )
