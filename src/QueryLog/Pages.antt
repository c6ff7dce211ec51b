-- ===== src/QueryLog/Pages.antt =====
-- The two reads of the query log: `list` and `detail` of backend/src/query_log_api.rs, behind the
-- queries of the database, whose answers are an argument. A row is the one that `upsert` wrote;
-- the names of people, the forms of the times and the preview of the text are left out.
pub mod Laws
mod Tests
use stardelt_nova.Prelude.{
  ℕ, String, Bool, true, false, not, ◌&&◌, Option, none, some, List, [], ◌∷◌, if◌then◌else◌, ltb,
  take, length, str_eq,
}
use stardelt_nova.Prelude.Results.{Result, ok, err}
use stardelt_nova.Identity.{Identity}
use stardelt_nova.Pipelines.Answers.{Fail}
use stardelt_nova.QueryLog.Records.{Accepted}
use stardelt_nova.QueryLog.Access.{
  RowOwner, Viewer, Scope, mine, team, everything, in_scope, visible, caller_of,
}

abbrev pub all_for_admins : Fail
all_for_admins = record { status = 403; message = "the all scope is for administrators" }

abbrev pub no_such_row : Fail
no_such_row = record { status = 404; message = "not found" }

-- Service principals have no recorded owner.
abbrev pub owner_of : Accepted → RowOwner
owner_of row = record { principal = row.record_of.principal; owner_group = none }

-- `rows.retain`.
unfoldable pub retain_scope : Scope → Viewer → List Accepted → List Accepted
unfolding in_scope
retain_scope scope viewer [] = []
retain_scope scope viewer (row ∷ rows) =
    let rest = retain_scope scope viewer rows in
    if in_scope scope (owner_of row) viewer then row ∷ rest else rest

abbrev pub last : List Accepted → Option Accepted
last [] = none
last (row ∷ []) = some row
last (row ∷ next ∷ rows) = last (next ∷ rows)

-- One page, and the row that the cursor of the next page names.
pub record Page : Type 0 where
  pub items : List Accepted
  pub next : Option Accepted

unfoldable pub page_of : Scope → Viewer → ℕ → List Accepted → Page
unfolding retain_scope
page_of scope viewer limit rows =
    let kept = retain_scope scope viewer (take limit rows) in
    record { items = kept; next = if ltb limit (length rows) then last kept else none }

unfoldable pub list_page :
    Option Identity → String → Scope → ℕ → Result Fail (List Accepted) → Result Fail Page
unfolding page_of caller_of
list_page caller dev_user everything limit fetched =
    let who = caller_of caller dev_user in
    if not who.is_admin
    then err all_for_admins
    else elim fetched [ err e ↦ err e | ok rows ↦ ok (page_of everything who limit rows) ]
list_page caller dev_user team limit fetched = ok (record { items = []; next = none })
list_page caller dev_user mine limit (err e) = err e
list_page caller dev_user mine limit (ok rows) =
    ok (page_of mine (caller_of caller dev_user) limit rows)

-- The audit line `query_log.read_other`.
pub record ReadOther : Type 0 where
  pub actor : String
  pub sub : String
  pub query_id : String
  pub owner : String

abbrev pub read_other : Viewer → Accepted → ReadOther
read_other who row = record {
  actor = who.username;
  sub = who.sub;
  query_id = row.record_of.query_id;
  owner = row.record_of.principal;
}

unfoldable pub detail :
    Option Identity → String → Result Fail (Option Accepted) → Result Fail Accepted × List ReadOther
unfolding visible caller_of
detail caller dev_user (err e) = (err e, [])
detail caller dev_user (ok none) = (err no_such_row, [])
detail caller dev_user (ok (some row)) =
    let who = caller_of caller dev_user in
    if not (visible (owner_of row) who)
    then (err no_such_row, [])
    else if not (str_eq row.record_of.principal who.username)
        && not (str_eq row.record_of.principal who.sub)
    then (ok row, read_other who row ∷ [])
    else (ok row, [])
