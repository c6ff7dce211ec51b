-- ===== src/Pipelines/Actions/Starts.antt =====
-- When an action starts a run.
use stardelt_nova.Prelude.{
  ℕ, ◌≡◌, refl, ◌⊎◌, inl, inr, String, true, some, [], ◌∷◌, ◌++◌, Bool-cases,
}
use stardelt_nova.Prelude.Results.{ok, map_err, Result-cases, map_err_comp}
use stardelt_nova.Identity.{Identity}
use stardelt_nova.Limiter.{take_run_slot}
use stardelt_nova.Airflow.{AirflowClient, dag_id_for}
use stardelt_nova.Values.{ValueApi}
use stardelt_nova.Pipelines.Answers.{scheduler_fail, error}
use stardelt_nova.Pipelines.Actions.{run_now, run_now_inner, note_of}
use stardelt_nova.Pipelines.Actions.Checks.{Services, ready_to_run, no_active_run}
use stardelt_nova.Pipelines.Actions.Handler.{World, Call, trigger, take_slot_or, send, audited}
use stardelt_nova.Pipelines.Actions.Startable.{
  IsStartable, IsReady, ready_to_run-IsReady, no_active_run-IsFree, startable, ready-IsStartable,
  free-IsStartable,
}

module _ {V : Type 0} (api : ValueApi V) (services : Services V) (who : Identity)
    (namespace name : String) (now : ℕ) (date : String) (w : World) where
  abbrev started : String → Call
  started dag_id = trigger dag_id date (some (note_of who))

  -- The call leaves the world as it is, or sends one call to a pipeline that may start.
  abbrev pub Sends : World → Type 0
  Sends after =
      (after.calls ≡ w.calls)
      ⊎ ((airflow : AirflowClient) × IsStartable api services who namespace name airflow
          × ((take_run_slot w.limiter now who.sub).1 ≡ true)
          × (after.calls ≡ w.calls ++ started (dag_id_for namespace name) ∷ []))

  after_ready :
      (t : AirflowClient × String × V)
      → ready_to_run api who services namespace name ≡ ok t
      → Sends ((run_now_inner api services who namespace name now date w).0)
  unfolding run_now_inner take_slot_or send IsReady
  after_ready (airflow, dag_id, resource) h =
      elim (Bool-cases ((take_run_slot w.limiter now who.sub).1)) [
        | inr full ↦ inl (rw (h, full))
        | inl granted ↦ elim (Result-cases (no_active_run api who airflow dag_id resource)) [
          | inl (problem, e) ↦ inl (rw (h, granted, e))
          | inr (done, e) ↦
              let ready =
                ready_to_run-IsReady api services who namespace name (airflow, dag_id, resource)
                  h in
              inr (
                airflow,
                startable api services who namespace name (airflow, dag_id, resource) ready
                    (no_active_run-IsFree api services who namespace name airflow dag_id resource
                      e),
                granted,
                rw (h, granted, e, ready.4),
              )
        ]
      ]

  -- A run is started only when the caller may act on the pipeline, the scheduler has loaded it, it
  -- is not paused, none of the at most 5 runs that the scheduler lists is active (unless the
  -- pipeline allows several), and the caller has a slot left in the minute, and
  -- then by exactly one call, for the DAG of this pipeline; every refusal leaves the calls as
  -- they were.
  pub run_now-calls : Sends ((run_now api services who namespace name now date w).0)
  unfolding run_now audited run_now_inner
  run_now-calls = elim (Result-cases (ready_to_run api who services namespace name)) [
    | inl (problem, e) ↦ inl (rw e)
    | inr (t, e) ↦ after_ready t e
  ]

  -- When a run may start and the caller has a slot left, the call is sent, and its answer is
  -- the answer of the scheduler.
  pub run_now_starts :
      (airflow : AirflowClient)
      → IsStartable api services who namespace name airflow
      → (take_run_slot w.limiter now who.sub).1 ≡ true
      → ((run_now api services who namespace name now date w).0.calls
          ≡ w.calls ++ started (dag_id_for namespace name) ∷ [])
        × ((run_now api services who namespace name now date w).1
            ≡ map_err
                (λ e. scheduler_fail e)
                (airflow.trigger (dag_id_for namespace name) date (some (note_of who))))
  unfolding run_now audited run_now_inner take_slot_or send
  run_now_starts airflow s granted =
      rw
        (
          ready-IsStartable api services who namespace name airflow s,
          granted,
          free-IsStartable api services who namespace name airflow s,
        )
        (refl, map_err_comp (λ e. e.fail) (λ e. error (scheduler_fail e)) _)
