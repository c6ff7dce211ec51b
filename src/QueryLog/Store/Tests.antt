-- ===== src/QueryLog/Store/Tests.antt =====
-- The event of the end arrives first, and then that of the start.
use stardelt_nova.Prelude.{String, List, ◌≡◌, refl, Option, none, some, [], ◌∷◌, ◌or_else◌}
use stardelt_nova.Map.{get}
use stardelt_nova.QueryLog.Records.{QueryState, queued, finished, Accepted}
use stardelt_nova.QueryLog.Store.{upserts}
use stardelt_nova.QueryLog.Store.Laws.{last_of, taken, is_about, is_end, upserts-row}

abbrev pub event : QueryState → String → Accepted
event state created_at = record {
  record_of = record {
    query_id = "q1";
    state = state;
    principal = "bob";
    source = none;
    client_tags = [];
    catalog = none;
    schema = none;
    query_type = none;
    sql_text = "select 1";
    sql_hash = "h";
    created_at = created_at;
    started_at = none;
    ended_at = none;
    stats = none;
    error_code = none;
    error_message = none;
    tables_read = [];
    tables_written = [];
  };
  warehouse = "default";
}

abbrev the_end : Accepted
the_end = event finished "2026-01-01"

-- The last of these events meets a lost connection.
abbrev events : List (Option String × Accepted)
events =
    (none, the_end)
    ∷ (none, event queued "2026-01-01")
    ∷ (some "connection lost", event finished "2026-01-02")
    ∷ []

late : get "q1" (upserts events []) ≡ some the_end
unfolding get upserts
late = refl

upserts-row_example :
    get "q1" (upserts events [])
    ≡ last_of (is_end "q1") (taken events) or_else last_of (is_about "q1") (taken events)
upserts-row_example = upserts-row "q1" events
