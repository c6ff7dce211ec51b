-- ===== src/QueryLog/Records.antt =====
-- A row of the query log: `QueryState`, `QueryStats` and `QueryLogRecord` of
-- backend/src/query_log_event.rs and `Accepted` of query_log_collector.rs.
use stardelt_nova.Prelude.{String, Option, List}
use stardelt_nova.Prelude.Int.{ℤ}

pub data QueryState : Type 0 where
  queued finished failed canceled : QueryState

-- The value of the column `state`.
unfoldable pub as_str : QueryState → String
as_str queued = "QUEUED"
as_str finished = "FINISHED"
as_str failed = "FAILED"
as_str canceled = "CANCELED"

pub record QueryStats : Type 0 where
  pub queued_ms : ℤ
  pub planning_ms : ℤ
  pub execution_ms : ℤ
  pub wall_ms : ℤ
  pub cpu_ms : ℤ
  pub peak_memory_bytes : ℤ
  pub input_rows : ℤ
  pub input_bytes : ℤ
  pub output_rows : ℤ
  pub output_bytes : ℤ
  pub written_rows : ℤ
  pub written_bytes : ℤ

pub record QueryLogRecord : Type 0 where
  pub query_id : String
  pub state : QueryState
  pub principal : String
  pub source : Option String
  pub client_tags : List String
  pub catalog : Option String
  pub schema : Option String
  pub query_type : Option String
  pub sql_text : String
  pub sql_hash : String
  pub created_at : String
  pub started_at : Option String
  pub ended_at : Option String
  pub stats : Option QueryStats
  pub error_code : Option String
  pub error_message : Option String
  pub tables_read : List String
  pub tables_written : List String

-- What the collector hands to the store.
pub record Accepted : Type 0 where
  pub record_of : QueryLogRecord
  pub warehouse : String
