-- ===== src/Pipelines/Actions/Audits.antt =====
-- Every action writes one audit line, and its outcome tells whether the action succeeded.
use stardelt_nova.Prelude.{ℕ, ◌≡◌, refl, ◌↔◌, String, Bool, Option, [], ◌∷◌, ◌++◌}
use stardelt_nova.Prelude.Results.{Result, ok, err}
use stardelt_nova.Identity.{Identity}
use stardelt_nova.Limiter.{take_run_slot}
use stardelt_nova.Values.{ValueApi}
use stardelt_nova.Pipelines.Answers.{
  Fail, ActionError, refusal, no_such_run, pipeline_not_loaded, too_many_runs, scheduler_fail,
  resource_write_fail,
}
use stardelt_nova.Pipelines.Actions.{
  run_now, run_now_inner, set_paused_action, set_paused_inner, stop_run, stop_run_inner,
  delete_pipeline, delete_pipeline_inner,
}
use stardelt_nova.Pipelines.Actions.Checks.{
  Services, ready_to_run, no_active_run, ready_to_switch, run_to_stop, ready_to_delete,
}
use stardelt_nova.Pipelines.Actions.Handler.{
  World, take_slot_or, send, audit_line, line_of, audited,
}
use stardelt_nova.Pipelines.Actions.Quiet.{
  IsQuiet, error-outcome, map_err-IsTold, airflow_error-outcome, guard-IsTold, then-IsQuiet,
  no_active_run-IsTold, ready_to_run-IsTold, run_to_stop-IsTold, ready_to_delete-IsTold,
  ready_to_switch-IsTold,
}

abbrev pub IsOk : {E A : Type 0} → Result E A → Type 0
IsOk (ok a) = Unit {0}
IsOk (err e) = ⊥

-- The action wrote one line, with its name, the caller, the pipeline and an outcome that is "ok"
-- exactly when the caller got an answer.
abbrev pub WritesOne :
    {A : Type 0} → String → Identity → String → String → World → World × Result Fail A → Type 0
WritesOne action who namespace name w (after, result) =
    (run : Option String) × (outcome : String) × (after.audit
      ≡ w.audit ++ audit_line action who namespace name run outcome ∷ [])
    × ((outcome ≡ "ok") ↔ IsOk result)

audited-WritesOne :
    {A : Type 0} (action : String) (who : Identity) (namespace name : String)
    (on_ok : A → Option String) (on_err : Option String) (w : World)
    (p : World × Result ActionError A)
    → IsQuiet w p
    → WritesOne action who namespace name w
        (audited (line_of action who namespace name on_ok on_err) p)
unfolding audited line_of IsQuiet
audited-WritesOne action who namespace name on_ok on_err w (after, ok a) (e, told) =
    (on_ok a, "ok", rw e, (λ _. tt, λ _. refl))
audited-WritesOne action who namespace name on_ok on_err w (after, err problem) (e, told) =
    (on_err, problem.outcome, rw e, (λ h. told h, λ h. absurd h))

module _ {V : Type 0} (api : ValueApi V) (services : Services V) (who : Identity)
    (namespace name : String) (w : World) where
  run_now_inner-IsQuiet :
      (now : ℕ) (date : String)
      → IsQuiet w (run_now_inner api services who namespace name now date w)
  unfolding run_now_inner IsQuiet take_slot_or send
  run_now_inner-IsQuiet now date =
      then-IsQuiet w (w, ready_to_run api who services namespace name) _
        (refl, (ready_to_run-IsTold api services who namespace name))
        (λ t w1 e.
          then-IsQuiet w (take_slot_or w1 now who.sub (refusal "rate-limited" too_many_runs)) _
            (
              e,
              guard-IsTold ((take_run_slot w1.limiter now who.sub).1) "rate-limited" too_many_runs,
            )
            (λ _ w2 e2.
              then-IsQuiet w (w2, no_active_run api who t.0 t.1 t.2) _
                (e2, (no_active_run-IsTold api services who namespace name) t.0 t.1 t.2)
                (λ _ w3 e3. (
                  e3,
                  map_err-IsTold _ (t.0.trigger _ _ _) (λ x. error-outcome (scheduler_fail x)),
                ))))

  set_paused_inner-IsQuiet :
      (paused : Bool) → IsQuiet w (set_paused_inner api services who namespace name paused w)
  unfolding set_paused_inner IsQuiet send
  set_paused_inner-IsQuiet paused =
      then-IsQuiet w (w, ready_to_switch api who services namespace name) _
        (refl, (ready_to_switch-IsTold api services who namespace name))
        (λ t w1 e.
          then-IsQuiet w _ _
            (
              e,
              map_err-IsTold _ (t.0.set_paused t.1 paused)
                  (airflow_error-outcome "not-loaded" pipeline_not_loaded),
            )
            (λ dag w2 e2. (e2, tt)))

  stop_run_inner-IsQuiet :
      (run_id : String) → IsQuiet w (stop_run_inner api services who namespace name run_id w)
  unfolding stop_run_inner IsQuiet send
  stop_run_inner-IsQuiet run_id =
      then-IsQuiet w (w, run_to_stop api who services namespace name run_id) _
        (refl, (run_to_stop-IsTold api services who namespace name) run_id)
        (λ t w1 e. (
          e,
          map_err-IsTold _ (t.0.mark_run_failed t.1 t.2.dag_run_id)
              (airflow_error-outcome "not-found" no_such_run),
        ))

  delete_pipeline_inner-IsQuiet :
      IsQuiet w (delete_pipeline_inner api services who namespace name w)
  unfolding delete_pipeline_inner IsQuiet send
  delete_pipeline_inner-IsQuiet =
      then-IsQuiet w (w, ready_to_delete api who services namespace name) _
        (refl, (ready_to_delete-IsTold api services who namespace name))
        (λ resources w1 e. (
          e,
          map_err-IsTold _ (resources.delete name) (λ x. error-outcome (resource_write_fail x)),
        ))

  -- Running, pausing or resuming, stopping a run and deleting each write exactly one audit line,
  -- after the lines that were there, also on every refusal and failure. It names the action,
  -- the caller and the pipeline, and its outcome is "ok" exactly when the caller got an answer.
  pub actions-audit :
      ((now : ℕ) (date : String)
        → WritesOne "run" who namespace name w (run_now api services who namespace name now date w))
      × ((action : String) (paused : Bool)
          → WritesOne action who namespace name w
              (set_paused_action api services who namespace name action paused w))
      × ((run_id : String)
          → WritesOne "stop" who namespace name w
              (stop_run api services who namespace name run_id w))
      × WritesOne "delete" who namespace name w (delete_pipeline api services who namespace name w)
  unfolding run_now set_paused_action stop_run delete_pipeline
  actions-audit = (
    λ now date. audited-WritesOne _ _ _ _ _ _ w _ (run_now_inner-IsQuiet now date),
    λ action paused. audited-WritesOne _ _ _ _ _ _ w _ (set_paused_inner-IsQuiet paused),
    λ run_id. audited-WritesOne _ _ _ _ _ _ w _ (stop_run_inner-IsQuiet run_id),
    audited-WritesOne _ _ _ _ _ _ w _ delete_pipeline_inner-IsQuiet,
  )
