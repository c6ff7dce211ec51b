-- ===== src/Pipelines/Actions/Quiet.antt =====
-- Steps that write no audit line, and whose errors name an outcome other than "ok".
use text.Mathlib.TextLemmas.{head-eq_of_cons-eq}
use stardelt_nova.Prelude.{
  ◌≡◌, ap, ◌≢◌, inl, inr, code, String, Bool, true, false, not, Option, none, some, any, arith,
  str_eq, Bool-cases, if◌then◌else◌,
}
use stardelt_nova.Prelude.Results.{Result, ok, err, ◌>>=◌, map_err, guard}
use stardelt_nova.Identity.{Identity}
use stardelt_nova.Airflow.{
  AirflowClient, AirflowError, not_configured, unavailable, refused, not_found, rejected,
}
use stardelt_nova.Values.{ValueApi}
use stardelt_nova.Pipelines.Resource.{may_act, spec_of, concurrency_of, nova_managed}
use stardelt_nova.Pipelines.Answers.{
  Fail, ActionError, refusal, error, no_cluster, scheduler_not_configured, no_such_run,
  pipeline_not_loaded, pipeline_paused, run_already_active, run_not_active, managed_outside,
  airflow_error, scheduler_fail,
}
use stardelt_nova.Pipelines.Actions.Checks.{
  Services, PipelineResources, need, found, find_run, is_active, is_paused, load_allowed,
  load_actionable, ready_to_run, no_active_run, ready_to_switch, run_to_stop, ready_to_delete,
  active_runs, latest_runs,
}
use stardelt_nova.Pipelines.Actions.Handler.{World, ◌then◌}

-- An error names an outcome of its own.
abbrev pub IsTold : {A : Type 0} → Result ActionError A → Type 0
IsTold (ok a) = Unit {0}
IsTold (err e) = e.outcome ≢ "ok"

pub error-outcome : (fail : Fail) → (error fail).outcome ≢ "ok"
error-outcome fail e = absurd (omega (arith, ap code (head-eq_of_cons-eq e)))

pub refusal-outcome : (why : String) (fail : Fail) → (refusal why fail).outcome ≢ "ok"
refusal-outcome why fail e = absurd (omega (arith, ap code (head-eq_of_cons-eq e)))

module _ {A : Type 0} where
  pub >>=-IsTold :
      {B : Type 0} (m : Result ActionError A) (f : A → Result ActionError B)
      → IsTold m
      → ((a : A) → IsTold (f a))
      → IsTold (m >>= f)
  >>=-IsTold (ok a) f h k = k a
  >>=-IsTold (err e) f h k = h

  pub map_err-IsTold :
      {E : Type 0} (f : E → ActionError) (r : Result E A)
      → ((e : E) → (f e).outcome ≢ "ok")
      → IsTold (map_err f r)
  map_err-IsTold f (ok a) h = tt
  map_err-IsTold f (err e) h = h e

  need-IsTold : (fail : Fail) (o : Option A) → IsTold (need fail o)
  need-IsTold fail none = error-outcome fail
  need-IsTold fail (some a) = tt

pub airflow_error-outcome :
    (why : String) (fail : Fail) (e : AirflowError)
    → (airflow_error (refusal why fail) e).outcome ≢ "ok"
airflow_error-outcome why fail not_found = refusal-outcome why fail
airflow_error-outcome why fail not_configured = error-outcome (scheduler_fail not_configured)
airflow_error-outcome why fail (unavailable message) =
    error-outcome (scheduler_fail (unavailable message))
airflow_error-outcome why fail (refused message) = error-outcome (scheduler_fail (refused message))
airflow_error-outcome why fail (rejected message) =
    error-outcome (scheduler_fail (rejected message))

pub guard-IsTold : (b : Bool) (why : String) (fail : Fail) → IsTold (guard b (refusal why fail))
guard-IsTold true why fail = tt
guard-IsTold false why fail = refusal-outcome why fail

-- A step that writes no audit line, and whose error names an outcome.
unfoldable pub IsQuiet : {A : Type 0} → World → World × Result ActionError A → Type 0
IsQuiet w p = (p.0.audit ≡ w.audit) × IsTold p.1

pub then-IsQuiet :
    {A B : Type 0} (w : World) (p : World × Result ActionError A)
    (f : A → World → World × Result ActionError B)
    → IsQuiet w p
    → ((a : A) (w1 : World) → w1.audit ≡ w.audit → IsQuiet w (f a w1))
    → IsQuiet w (p then f)
unfolding IsQuiet
then-IsQuiet w (w1, ok a) f (e, _) k = k a w1 e
then-IsQuiet w (w1, err problem) f (e, told) k = (e, told)

module _ {V : Type 0} (api : ValueApi V) (services : Services V) (who : Identity)
    (namespace name : String) where
  load_actionable-IsTold :
      (own_namespace : String) (resources : PipelineResources V)
      → IsTold (load_actionable api who own_namespace resources namespace name)
  unfolding load_actionable
  load_actionable-IsTold own_namespace resources =
      map_err-IsTold (refusal "not-found")
        (load_allowed api who own_namespace resources namespace name (may_act api))
        (refusal-outcome "not-found")

  pub ready_to_run-IsTold : IsTold (ready_to_run api who services namespace name)
  unfolding ready_to_run
  ready_to_run-IsTold = >>=-IsTold _ _ (need-IsTold no_cluster services.resources) (λ resources.
      >>=-IsTold _ _ (need-IsTold scheduler_not_configured services.airflow) (λ airflow.
        >>=-IsTold _ _ (load_actionable-IsTold services.own_namespace resources) (λ target.
          >>=-IsTold _ _
            (map_err-IsTold _ (airflow.dag target.0)
              (airflow_error-outcome "not-loaded" pipeline_not_loaded))
            (λ dag.
              >>=-IsTold _ _ (guard-IsTold (not (is_paused dag.is_paused)) "paused" pipeline_paused)
                (λ _. tt)))))

  pub no_active_run-IsTold :
      (airflow : AirflowClient) (dag_id : String) (resource : V)
      → IsTold (no_active_run api who airflow dag_id resource)
  unfolding no_active_run
  no_active_run-IsTold airflow dag_id resource =
      elim (Bool-cases (str_eq (concurrency_of api (spec_of api resource)) "Allow")) [
        | inl allow ↦ rw allow tt
        | inr other ↦ rw other (
            >>=-IsTold _ _
              (map_err-IsTold _ (airflow.runs dag_id active_runs)
                (airflow_error-outcome "not-loaded" pipeline_not_loaded))
              (λ runs. guard-IsTold (not (any is_active runs)) "already-active" run_already_active))
      ]

  pub run_to_stop-IsTold :
      (run_id : String) → IsTold (run_to_stop api who services namespace name run_id)
  unfolding run_to_stop
  run_to_stop-IsTold run_id =
      >>=-IsTold _ _ (need-IsTold no_cluster services.resources) (λ resources.
        >>=-IsTold _ _ (need-IsTold scheduler_not_configured services.airflow) (λ airflow.
          >>=-IsTold _ _ (load_actionable-IsTold services.own_namespace resources) (λ target.
            >>=-IsTold _ _
              (map_err-IsTold _ (airflow.runs target.0 latest_runs)
                (airflow_error-outcome "not-found" no_such_run))
              (λ runs.
                >>=-IsTold _ _
                  (map_err-IsTold _ (found no_such_run (find_run run_id runs))
                    (refusal-outcome "not-found"))
                  (λ run.
                    >>=-IsTold _ _ (guard-IsTold (is_active run) "not-active" run_not_active)
                      (λ _. tt))))))

  pub ready_to_delete-IsTold : IsTold (ready_to_delete api who services namespace name)
  unfolding ready_to_delete
  ready_to_delete-IsTold = >>=-IsTold _ _ (need-IsTold no_cluster services.resources) (λ resources.
      >>=-IsTold _ _ (load_actionable-IsTold services.own_namespace resources) (λ target.
        >>=-IsTold _ _ (guard-IsTold (nova_managed api target.1) "not-nova" managed_outside)
          (λ _. tt)))

  pub ready_to_switch-IsTold : IsTold (ready_to_switch api who services namespace name)
  unfolding ready_to_switch
  ready_to_switch-IsTold = >>=-IsTold _ _ (need-IsTold no_cluster services.resources) (λ resources.
      >>=-IsTold _ _ (need-IsTold scheduler_not_configured services.airflow) (λ airflow.
        >>=-IsTold _ _ (load_actionable-IsTold services.own_namespace resources) (λ target. tt)))
