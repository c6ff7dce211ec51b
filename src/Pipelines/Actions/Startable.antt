-- ===== src/Pipelines/Actions/Startable.antt =====
-- When a run may start: what the checks find, and that finding it is enough.
use stardelt_nova.Prelude.{
  ◌≡◌, refl, ◌≢◌, ◌⊎◌, inl, inr, String, Bool, true, false, not, Option, none, some, List, any,
  arith, str_eq, eq_iff, Bool-cases,
}
use stardelt_nova.Prelude.Results.{map_err-eq-ok, ok, >>=-eq-ok, map_err, guard}
use stardelt_nova.Identity.{Identity}
use stardelt_nova.Airflow.{AirflowClient, DagSummary, DagRun, dag_id_for}
use stardelt_nova.Values.{ValueApi}
use stardelt_nova.Pipelines.Resource.{spec_of, concurrency_of}
use stardelt_nova.Pipelines.Answers.{
  refusal, no_cluster, scheduler_not_configured, pipeline_not_loaded, pipeline_paused,
  airflow_error,
}
use stardelt_nova.Pipelines.Actions.Checks.{
  Services, PipelineResources, need, is_active, is_paused, active_runs, load_actionable,
  ready_to_run, no_active_run,
}
use stardelt_nova.Pipelines.Actions.Found.{
  IsFound, need-eq-ok, load_actionable-IsFound, load_actionable_found,
}

module _ {V : Type 0} (api : ValueApi V) (services : Services V) (who : Identity)
    (namespace name : String) where
  -- A run may start: the caller may act on the pipeline, the scheduler has loaded it, it is not
  -- paused, and none of the at most 5 runs that the scheduler lists is active unless it allows
  -- several.
  pub record IsStartable (airflow : AirflowClient) : Type 0 where
    pub resources : PipelineResources V
    pub resource : V
    pub dag : DagSummary
    pub has_cluster : services.resources ≡ some resources
    pub has_scheduler : services.airflow ≡ some airflow
    pub is_found : IsFound api who namespace name services.own_namespace resources resource
    pub loaded : airflow.dag (dag_id_for namespace name) ≡ ok dag
    pub not_paused : dag.is_paused ≢ some true
    pub is_free :
        (concurrency_of api (spec_of api resource) ≡ "Allow")
        ⊎ ((runs : List DagRun) × (airflow.runs (dag_id_for namespace name) active_runs ≡ ok runs)
            × (any is_active runs ≡ false))

  -- What `ready_to_run` has found.
  unfoldable pub IsReady : AirflowClient × String × V → Type 0
  IsReady (airflow, dag_id, resource) =
      (resources : PipelineResources V) × (dag : DagSummary) × (services.resources ≡ some resources)
      × (services.airflow ≡ some airflow)
      × (dag_id ≡ dag_id_for namespace name)
      × IsFound api who namespace name services.own_namespace resources resource
      × (airflow.dag dag_id ≡ ok dag)
      × (dag.is_paused ≢ some true)

  not_paused-is_paused : (p : Option Bool) → (is_paused p ≡ false) → p ≢ some true
  not_paused-is_paused none h e = cc
  not_paused-is_paused (some b) h e = cc

  is_paused-false : (p : Option Bool) → p ≢ some true → is_paused p ≡ false
  is_paused-false none h = refl
  is_paused-false (some true) h = absurd (h refl)
  is_paused-false (some false) h = refl

  pub ready_to_run-IsReady :
      (t : AirflowClient × String × V)
      → ready_to_run api who services namespace name ≡ ok t
      → IsReady t
  unfolding ready_to_run IsReady
  ready_to_run-IsReady t h =
      let (resources, e1, h1) = >>=-eq-ok (need no_cluster services.resources) _ h in
      let (client, e2, h2) = >>=-eq-ok (need scheduler_not_configured services.airflow) _ h1 in
      let (target, e3, h3) =
        >>=-eq-ok (load_actionable api who services.own_namespace resources namespace name) _ h2 in
      let (dag, e4, h4) =
        >>=-eq-ok
          (map_err (airflow_error (refusal "not-loaded" pipeline_not_loaded)) (client.dag target.0))
          _ h3 in
      let (_, e5, h5) =
        >>=-eq-ok (guard (not (is_paused dag.is_paused)) (refusal "paused" pipeline_paused)) _ h4 in
      let (id, f) =
        load_actionable-IsFound api who namespace name services.own_namespace resources target e3 in
      let whole : (client, target.0, target.1) ≡ t = cc in
      rw (← whole) (
        resources,
        dag,
        need-eq-ok _ _ _ e1,
        need-eq-ok _ _ _ e2,
        id,
        f,
        map_err-eq-ok _ _ e4,
        not_paused-is_paused dag.is_paused (ground arith),
      )

  unfoldable pub IsFree : AirflowClient × String × V → Type 0
  IsFree (airflow, dag_id, resource) =
      (concurrency_of api (spec_of api resource) ≡ "Allow")
      ⊎ ((runs : List DagRun) × (airflow.runs dag_id active_runs ≡ ok runs)
          × (any is_active runs ≡ false))

  pub no_active_run-IsFree :
      (airflow : AirflowClient) (dag_id : String) (resource : V)
      → no_active_run api who airflow dag_id resource ≡ ok tt
      → IsFree (airflow, dag_id, resource)
  unfolding no_active_run IsFree
  no_active_run-IsFree airflow dag_id resource h =
      elim (Bool-cases (str_eq (concurrency_of api (spec_of api resource)) "Allow")) [
        | inl allow ↦ inl ((eq_iff _ "Allow").0 allow)
        | inr other ↦
            let (runs, e, h1) =
              >>=-eq-ok
                (map_err (airflow_error (refusal "not-loaded" pipeline_not_loaded))
                  (airflow.runs dag_id active_runs))
                _ (rw other at h) in
            inr (runs, map_err-eq-ok _ _ e, ground arith)
      ]

  pub startable : (t : AirflowClient × String × V) → IsReady t → IsFree t → IsStartable t.0
  unfolding IsReady IsFree
  startable (airflow, dag_id, resource) (resources, dag, a, b, id, f, l, p) free = record {
    resources = resources;
    resource = resource;
    dag = dag;
    has_cluster = a;
    has_scheduler = b;
    is_found = f;
    loaded = rw (← id) l;
    not_paused = p;
    is_free = rw (← id) free;
  }

  pub ready-IsStartable :
      (airflow : AirflowClient) (s : IsStartable airflow)
      → ready_to_run api who services namespace name
        ≡ ok (airflow, dag_id_for namespace name, s.resource)
  unfolding ready_to_run
  ready-IsStartable airflow s = rw (
    s.has_cluster,
    s.has_scheduler,
    load_actionable_found api who namespace name services.own_namespace s.resources s.resource
        s.is_found,
    s.loaded,
    is_paused-false s.dag.is_paused s.not_paused,
  )

  pub free-IsStartable :
      (airflow : AirflowClient) (s : IsStartable airflow)
      → no_active_run api who airflow (dag_id_for namespace name) s.resource ≡ ok tt
  unfolding no_active_run
  free-IsStartable airflow s = elim (s.is_free) [
    | inl allow ↦ rw ((eq_iff _ "Allow").1 allow)
    | inr (runs, e, none_active) ↦
        elim (Bool-cases (str_eq (concurrency_of api (spec_of api s.resource)) "Allow")) [
          | inl allow ↦ rw allow
          | inr other ↦ rw (other, e, none_active)
        ]
  ]
