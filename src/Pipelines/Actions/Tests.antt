-- ===== src/Pipelines/Actions/Tests.antt =====
-- Actions on one pipeline, with a small type of values that has what the actions read.
use stardelt_nova.Prelude.{
  ℕ, ◌≡◌, refl, ◌⊎◌, inr, String, Bool, true, false, Option, none, some, List, [], ◌∷◌, ◌++◌,
  str_eq, if◌then◌else◌,
}
use stardelt_nova.Prelude.Results.{Result, ok, map_err}
use stardelt_nova.Map.{contains}
use stardelt_nova.Identity.{Identity}
use stardelt_nova.Limiter.{no_slots, take_run_slot, take_slot, pop_expired}
use stardelt_nova.Airflow.{AirflowClient, DagSummary, DagRun, dag_id_for}
use stardelt_nova.Values.{ValueApi}
use stardelt_nova.Pipelines.Resource.{spec_of, visible, may_act, concurrency_of}
use stardelt_nova.Pipelines.Answers.{ResourceError, scheduler_fail}
use stardelt_nova.Pipelines.Actions.{
  run_now, run_now_inner, stop_run, set_paused_action, delete_pipeline, note_of,
}
use stardelt_nova.Pipelines.Actions.Checks.{
  Services, with_cluster, PipelineResources, ready_to_run, no_active_run,
}
use stardelt_nova.Pipelines.Actions.Handler.{
  Call, trigger, mark_run_failed, delete_resource, World, take_slot_or, send, audited,
}
use stardelt_nova.Pipelines.Actions.Found.{IsFound}
use stardelt_nova.Pipelines.Actions.Startable.{IsStartable}
use stardelt_nova.Pipelines.Actions.Starts.{Sends, run_now-calls, run_now_starts}
use stardelt_nova.Pipelines.Actions.Stops.{IsStoppable, stop_run-calls}
use stardelt_nova.Pipelines.Actions.Deletes.{IsDeletable, delete_pipeline-calls}
use stardelt_nova.Pipelines.Actions.Audits.{WritesOne, actions-audit}
use stardelt_nova.Pipelines.Actions.Hidden.{hidden-absent}

-- A value is a text, or the pipeline itself, whose fields are texts: its owner group.
data Doc : Type 0 where
  text : String → Doc
  pipeline : String → Doc

abbrev field : Doc → String → Option Doc
field (text s) key = none
field (pipeline owner) key = if str_eq key "ownerGroup" then some (text owner) else none

abbrev text_of : Doc → Option String
text_of (text s) = some s
text_of (pipeline owner) = none

abbrev docs : ValueApi Doc
docs = record {
  null = text "";
  get = field;
  pointer = λ v path. none;
  as_str = text_of;
  as_bool = λ v. none;
  as_u64 = λ v. none;
  as_array = λ v. none;
}

abbrev ann : Identity
ann = record {
  sub = "ann-1";
  display_name = "Ann";
  email = none;
  name = none;
  groups = "sales" ∷ [];
  roles = [];
  groups_overage = false;
  is_admin = false;
}

abbrev one_pipeline : String → String → Result ResourceError (Option Doc)
one_pipeline owner name = if str_eq name "daily" then ok (some (pipeline owner)) else ok none

abbrev stored : String → PipelineResources Doc
stored owner = record { get = one_pipeline owner; delete = λ name. ok tt }

abbrev nothing_stored : PipelineResources Doc
nothing_stored = record { get = λ name. ok none; delete = λ name. ok tt }

abbrev dag : DagSummary
dag = record { dag_id = "prod__daily"; is_paused = some false; next_dagrun_run_after = none }

abbrev run : String → String → DagRun
run id state = record {
  dag_run_id = id;
  state = some state;
  run_type = none;
  logical_date = none;
  start_date = none;
  end_date = none;
  note = none;
  triggered_by = none;
}

abbrev scheduler : List DagRun → AirflowClient
scheduler runs = record {
  dag = λ id. ok dag;
  runs = λ id limit. ok runs;
  trigger = λ id date note. ok (run "new" "queued");
  set_paused = λ id paused. ok dag;
  mark_run_failed = λ id run_id. ok (run run_id "failed");
}

abbrev services : List DagRun → Services Doc
services runs = with_cluster (some (scheduler runs)) "prod" (stored "sales")

abbrev quiet : World
quiet = record { limiter = no_slots; calls = []; audit = [] }

abbrev started : Call
started = trigger "prod__daily" "2026-01-01T00:00:00Z" (some "Started from Nova by Ann")

run_sent :
    (run_now docs (services []) ann "prod" "daily" 7 "2026-01-01T00:00:00Z" quiet).0.calls
    ≡ started ∷ []
unfolding run_now audited run_now_inner ready_to_run may_act visible spec_of contains take_slot_or
    take_run_slot take_slot pop_expired no_active_run concurrency_of send dag_id_for
run_sent = refl

daily-IsFound : IsFound docs ann "prod" "daily" "prod" (stored "sales") (pipeline "sales")
unfolding may_act visible spec_of contains
daily-IsFound = record { own = refl; stored = refl; allowed = refl }

may_start :
    IsStartable docs
      (services (run "old" "success" ∷ []))
      ann
      "prod"
      "daily"
      (scheduler (run "old" "success" ∷ []))
may_start = record {
  resources = stored "sales";
  resource = pipeline "sales";
  dag = dag;
  has_cluster = refl;
  has_scheduler = refl;
  is_found = daily-IsFound;
  loaded = refl;
  not_paused = λ e. cc;
  is_free = inr (run "old" "success" ∷ [], refl, refl);
}

has_slot : (take_run_slot no_slots 7 "ann-1").1 ≡ true
unfolding take_run_slot take_slot pop_expired
has_slot = refl

run_now-calls_example :
    Sends docs
      (services [])
      ann
      "prod"
      "daily"
      7
      "2026-01-01T00:00:00Z"
      quiet
      ((run_now docs (services []) ann "prod" "daily" 7 "2026-01-01T00:00:00Z" quiet).0)
run_now-calls_example =
    run_now-calls docs (services []) ann "prod" "daily" 7 "2026-01-01T00:00:00Z" quiet

run_now_starts_example :
    ((run_now docs (services (run "old" "success" ∷ [])) ann "prod" "daily" 7 "now" quiet).0.calls
      ≡ [] ++ trigger (dag_id_for "prod" "daily") "now" (some (note_of ann)) ∷ [])
    × ((run_now docs (services (run "old" "success" ∷ [])) ann "prod" "daily" 7 "now" quiet).1
        ≡ map_err (λ e. scheduler_fail e) (ok (run "new" "queued")))
run_now_starts_example =
    run_now_starts docs (services (run "old" "success" ∷ [])) ann "prod" "daily" 7 "now" quiet
      (scheduler (run "old" "success" ∷ [])) may_start has_slot

abbrev busy : Services Doc
busy = services (run "one" "running" ∷ [])

stop_run-calls_example :
    ((stop_run docs busy ann "prod" "daily" "one" quiet).0.limiter ≡ no_slots)
    × (((stop_run docs busy ann "prod" "daily" "one" quiet).0.calls ≡ [])
        ⊎ ((airflow : AirflowClient) × IsStoppable docs busy ann "prod" "daily" "one" airflow
            × ((stop_run docs busy ann "prod" "daily" "one" quiet).0.calls
                ≡ [] ++ mark_run_failed (dag_id_for "prod" "daily") "one" ∷ [])))
stop_run-calls_example = stop_run-calls docs busy ann "prod" "daily" "one" quiet

delete_pipeline-calls_example :
    (IsDeletable docs busy ann "prod" "daily"
      × ((delete_pipeline docs busy ann "prod" "daily" quiet).0.calls
          ≡ [] ++ delete_resource "daily" ∷ []))
    ⊎ (¬ IsDeletable docs busy ann "prod" "daily"
        × ((delete_pipeline docs busy ann "prod" "daily" quiet).0.calls ≡ []))
delete_pipeline-calls_example = delete_pipeline-calls docs busy ann "prod" "daily" quiet

abbrev foreign : Services Doc
foreign = with_cluster (some (scheduler [])) "prod" (stored "finance")

abbrev empty : Services Doc
empty = with_cluster (some (scheduler [])) "prod" nothing_stored

not_visible : visible docs ann (spec_of docs (pipeline "finance")) ≡ false
unfolding visible spec_of contains
not_visible = refl

hidden-absent_example :
    ((now : ℕ) (date : String)
      → run_now docs foreign ann "prod" "daily" now date quiet
        ≡ run_now docs empty ann "prod" "daily" now date quiet)
    × ((action : String) (paused : Bool)
        → set_paused_action docs foreign ann "prod" "daily" action paused quiet
          ≡ set_paused_action docs empty ann "prod" "daily" action paused quiet)
    × ((run_id : String)
        → stop_run docs foreign ann "prod" "daily" run_id quiet
          ≡ stop_run docs empty ann "prod" "daily" run_id quiet)
    × (delete_pipeline docs foreign ann "prod" "daily" quiet
        ≡ delete_pipeline docs empty ann "prod" "daily" quiet)
hidden-absent_example =
    hidden-absent docs ann "daily" (stored "finance") nothing_stored (pipeline "finance") refl
      not_visible refl (some (scheduler [])) "prod" "prod" quiet

actions-audit_example :
    ((now : ℕ) (date : String)
      → WritesOne "run" ann "prod" "daily" quiet
          (run_now docs busy ann "prod" "daily" now date quiet))
    × ((action : String) (paused : Bool)
        → WritesOne action ann "prod" "daily" quiet
            (set_paused_action docs busy ann "prod" "daily" action paused quiet))
    × ((run_id : String)
        → WritesOne "stop" ann "prod" "daily" quiet
            (stop_run docs busy ann "prod" "daily" run_id quiet))
    × WritesOne "delete" ann "prod" "daily" quiet
        (delete_pipeline docs busy ann "prod" "daily" quiet)
actions-audit_example = actions-audit docs busy ann "prod" "daily" quiet
