-- ===== src/Pipelines/Actions/Handler.antt =====
-- How an action changes the world: it takes a slot, sends a call, or writes an audit line.
use stardelt_nova.Prelude.{ℕ, String, Bool, Option, List, [], ◌∷◌, ◌++◌}
use stardelt_nova.Prelude.Results.{Result, ok, err, guard, map_err}
use stardelt_nova.Identity.{Identity}
use stardelt_nova.Limiter.{Limiter, take_run_slot}
use stardelt_nova.Pipelines.Answers.{Fail, ActionError}

-- A call that changes something outside the server.
pub data Call : Type 0 where
  trigger : (dag_id date : String) → Option String → Call
  set_paused : (dag_id : String) → Bool → Call
  mark_run_failed : (dag_id run_id : String) → Call
  delete_resource : (name : String) → Call

-- One line of `pipeline_event`, for an action that writes no resource.
pub record AuditLine : Type 0 where
  pub action : String
  pub namespace : String
  pub pipeline : String
  pub run : Option String
  pub outcome : String
  pub actor : String
  pub sub : String

pub record World : Type 0 where
  pub limiter : Limiter
  pub calls : List Call
  pub audit : List AuditLine

-- The question mark after a step that may have changed the world.
infixl 5 ◌then◌
abbrev pub ◌then◌ :
    {A B : Type 0}
    → World × Result ActionError A
    → (A → World → World × Result ActionError B)
    → World × Result ActionError B
(w, err problem) then next = (w, err problem)
(w, ok value) then next = next value w

-- `if !take_run_slot(limiter, &who.sub) { return Err(..); }`.
unfoldable pub take_slot_or :
    World → ℕ → String → ActionError → World × Result ActionError (Unit {0})
take_slot_or w now sub problem =
    let (limiter, granted) = take_run_slot w.limiter now sub in
    (record { limiter = limiter; calls = w.calls; audit = w.audit }, guard granted problem)

unfoldable pub send : World → Call → World
send w call = record { limiter = w.limiter; calls = w.calls ++ call ∷ []; audit = w.audit }

unfoldable pub audit_line : String → Identity → String → String → Option String → String → AuditLine
audit_line action who namespace name run outcome = record {
  action = action;
  namespace = namespace;
  pipeline = name;
  run = run;
  outcome = outcome;
  actor = who.display_name;
  sub = who.sub;
}

-- The outcome of an action and the run that its line names: `on_ok` reads it from the answer.
unfoldable pub line_of :
    {A : Type 0}
    → String
    → Identity
    → String
    → String
    → (A → Option String)
    → Option String
    → Result ActionError A
    → AuditLine
unfolding audit_line
line_of action who namespace name on_ok on_err (ok a) =
    audit_line action who namespace name (on_ok a) "ok"
line_of action who namespace name on_ok on_err (err e) =
    audit_line action who namespace name on_err e.outcome

-- The end of each action: one audit line, then the answer without the outcome.
unfoldable pub audited :
    {A : Type 0}
    → (Result ActionError A → AuditLine)
    → World × Result ActionError A
    → World × Result Fail A
audited line (w, result) = (
  record { limiter = w.limiter; calls = w.calls; audit = w.audit ++ line result ∷ [] },
  map_err (λ e. e.fail) result,
)
