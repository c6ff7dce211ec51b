-- ===== src/QueryLog/Store.antt =====
-- The writing of the query log: `upsert` of backend/src/query_log_store.rs, one statement of the
-- database with `query_id` as the key. A row keeps what the statement binds, and its `updated_at`,
-- which nothing reads, is left out. The database may refuse a statement, for a time that it
-- cannot read or for a lost connection, and then changes nothing.
pub mod Laws
pub mod Tests
use stardelt_nova.Prelude.{
  String, Bool, not, ◌||◌, Option, none, some, List, [], ◌∷◌, if◌then◌else◌, str_eq,
}
use stardelt_nova.Prelude.Results.{Result, ok, err}
use stardelt_nova.Map.{Map, get}
use stardelt_nova.Auth.Table.{put}
use stardelt_nova.QueryLog.Records.{Accepted, as_str}

abbrev pub QueryLog : Type 0
QueryLog = Map Accepted

-- The `WHERE` of the statement, on the row that is there and the row that comes.
unfoldable pub replaces : Accepted → Accepted → Bool
unfolding as_str
replaces new old =
    str_eq (as_str old.record_of.state) "QUEUED"
    || not (str_eq (as_str new.record_of.state) "QUEUED")

-- `INSERT ... ON CONFLICT (query_id) DO UPDATE ... WHERE ...`.
unfoldable pub write : Accepted → QueryLog → QueryLog
unfolding get put replaces
write new log = elim (get new.record_of.query_id log) [
  | none ↦ put new.record_of.query_id new log
  | some old ↦ if replaces new old then put new.record_of.query_id new log else log
]

-- `upsert`, with what the database answers to the statement: nothing, or an error.
unfoldable pub upsert : Option String → QueryLog → Accepted → QueryLog × Result String (Unit {0})
unfolding write
upsert (some e) log accepted = (log, err e)
upsert none log accepted = (write accepted log, ok tt)

-- The rows after the events of a run, in the order in which they reach the store, each with the
-- answer of the database.
unfoldable pub upserts : List (Option String × Accepted) → QueryLog → QueryLog
unfolding upsert
upserts [] log = log
upserts ((answer, a) ∷ events) log = upserts events (upsert answer log a).0
