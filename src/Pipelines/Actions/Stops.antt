-- ===== src/Pipelines/Actions/Stops.antt =====
-- When an action stops a run.
use stardelt_nova.Prelude.{
  ℕ, ◌≡◌, refl, ◌⊎◌, inl, inr, String, true, some, List, [], ◌∷◌, ◌++◌, arith, str_eq, eq_iff,
  Bool-cases,
}
use stardelt_nova.Prelude.Results.{map_err-eq-ok, ok, >>=-eq-ok, map_err, guard, Result-cases}
use stardelt_nova.Identity.{Identity}
use stardelt_nova.Airflow.{AirflowClient, DagRun, dag_id_for}
use stardelt_nova.Values.{ValueApi}
use stardelt_nova.Pipelines.Answers.{
  refusal, no_cluster, scheduler_not_configured, no_such_run, run_not_active, airflow_error,
}
use stardelt_nova.Pipelines.Actions.{stop_run, stop_run_inner}
use stardelt_nova.Pipelines.Actions.Checks.{
  Services, PipelineResources, need, found, is_active, latest_runs, find_run, run_to_stop,
  load_actionable,
}
use stardelt_nova.Pipelines.Actions.Handler.{World, mark_run_failed, send, audited}
use stardelt_nova.Pipelines.Actions.Found.{
  IsFound, need-eq-ok, found-eq-ok, load_actionable-IsFound,
}
use mathlib.Core.List.{Mem, mem-cons_self, mem-cons_of_mem}

runs_at :
    (client : AirflowClient) (a b : String) (limit : ℕ) (runs : List DagRun)
    → a ≡ b
    → client.runs a limit ≡ ok runs
    → client.runs b limit ≡ ok runs
runs_at client a b limit runs e h = rw (← e) h

find_run-dag_run_id :
    (run_id : String) (runs : List DagRun) (run : DagRun)
    → find_run run_id runs ≡ some run
    → (run.dag_run_id ≡ run_id) × Mem run runs
find_run-dag_run_id run_id [] run h = cc
find_run-dag_run_id run_id (r ∷ runs) run h = elim (Bool-cases (str_eq r.dag_run_id run_id)) [
  | inl same ↦
      let e : r ≡ run = ground arith in
      (rw (← e) ((eq_iff r.dag_run_id run_id).0 same), rw e mem-cons_self)
  | inr other ↦
      let (id, p) = find_run-dag_run_id run_id runs run (ground arith) in (id, mem-cons_of_mem r p)
]

module _ {V : Type 0} (api : ValueApi V) (services : Services V) (who : Identity)
    (namespace name run_id : String) where
  -- The run may be stopped: the caller may act on the pipeline, and the run is an active one
  -- among the latest 20 runs of its DAG.
  pub record IsStoppable (airflow : AirflowClient) : Type 0 where
    pub resources : PipelineResources V
    pub resource : V
    pub runs : List DagRun
    pub run : DagRun
    pub has_cluster : services.resources ≡ some resources
    pub has_scheduler : services.airflow ≡ some airflow
    pub is_found : IsFound api who namespace name services.own_namespace resources resource
    pub listed : airflow.runs (dag_id_for namespace name) latest_runs ≡ ok runs
    pub is_run : run.dag_run_id ≡ run_id
    pub in_runs : Mem run runs
    pub active : is_active run ≡ true

  run_to_stop-IsStoppable :
      (t : AirflowClient × String × DagRun)
      → run_to_stop api who services namespace name run_id ≡ ok t
      → (t.1 ≡ dag_id_for namespace name) × (t.2.dag_run_id ≡ run_id) × IsStoppable t.0
  unfolding run_to_stop
  run_to_stop-IsStoppable t h =
      let (resources, e1, h1) = >>=-eq-ok (need no_cluster services.resources) _ h in
      let (client, e2, h2) = >>=-eq-ok (need scheduler_not_configured services.airflow) _ h1 in
      let (target, e3, h3) =
        >>=-eq-ok (load_actionable api who services.own_namespace resources namespace name) _ h2 in
      let (runs, e4, h4) =
        >>=-eq-ok
          (map_err (airflow_error (refusal "not-found" no_such_run))
            (client.runs target.0 latest_runs))
          _ h3 in
      let (run, e5, h5) =
        >>=-eq-ok (map_err (refusal "not-found") (found no_such_run (find_run run_id runs))) _ h4 in
      let (_, e6, h6) =
        >>=-eq-ok (guard (is_active run) (refusal "not-active" run_not_active)) _ h5 in
      let (id, f) =
        load_actionable-IsFound api who namespace name services.own_namespace resources target e3 in
      let listed : client.runs target.0 latest_runs ≡ ok runs = map_err-eq-ok _ _ e4 in
      let (is_run, member) =
        find_run-dag_run_id run_id runs run (found-eq-ok _ _ _ (map_err-eq-ok _ _ e5)) in
      let whole : (client, target.0, run) ≡ t = cc in
      rw (← whole) (
        id,
        is_run,
        record {
          resources = resources;
          resource = target.1;
          runs = runs;
          run = run;
          has_cluster = need-eq-ok _ _ _ e1;
          has_scheduler = need-eq-ok _ _ _ e2;
          is_found = f;
          listed = runs_at client _ _ _ _ id listed;
          is_run = is_run;
          in_runs = member;
          active = ground arith;
        },
      )

  -- A request to stop marks a run failed only when the run is an active one among the latest 20
  -- runs of this pipeline's own DAG and the caller may act on the pipeline; then that one run is
  -- marked, and every refusal leaves the calls as they were. The rate limiter is never touched.
  pub stop_run-calls :
      (w : World)
      → ((stop_run api services who namespace name run_id w).0.limiter ≡ w.limiter)
        × (((stop_run api services who namespace name run_id w).0.calls ≡ w.calls)
            ⊎ ((airflow : AirflowClient) × IsStoppable airflow
                × ((stop_run api services who namespace name run_id w).0.calls
                    ≡ w.calls ++ mark_run_failed (dag_id_for namespace name) run_id ∷ [])))
  unfolding stop_run audited stop_run_inner send
  stop_run-calls w = elim (Result-cases (run_to_stop api who services namespace name run_id)) [
    | inl (problem, e) ↦ rw e (refl, inl refl)
    | inr ((airflow, dag_id, run), e) ↦
        let (id, is_run, stoppable) = run_to_stop-IsStoppable (airflow, dag_id, run) e in
        rw e (refl, inr (airflow, stoppable, rw (id, is_run)))
  ]
