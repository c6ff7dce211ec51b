-- ===== src/Lib.antt =====
-- A model of the backend of stardelt nova: the decisions that stand behind its HTTP routes.
--
-- The program is a web server. A route reads the signed-in person (`Identity`,
-- backend/src/auth.rs), checks the request with pure functions, takes a slot of a rate limiter
-- where it starts something, and then asks a service (the secret store, the cluster, Airflow,
-- Trino). The model holds the pure functions, the limiters and the
-- actions on pipelines.
--
--   Prelude, Text, Map, NumberSet   the parts of Rust's standard library that the code uses:
--     results, signed numbers, operations on `str`, `BTreeMap<String, _>` as a list of pairs in
--     the order of the keys, `BTreeSet<u32>` as a rising list
--   Identity      `Identity` of backend/src/auth.rs
--   Auth          backend/src/auth.rs: Errors is `AuthError`, Claims is `identity_from_claims` and
--     `is_admin`, Tokens is `verify_jwt`, Keys is `Provider::keys` and `verify_with`, Sessions is
--     `SessionStore`, `PendingStore` and `Credentials`, Refresh is `session_credentials` and
--     `refresh_session`, Returns is `safe_return_to` and `sanitize_code`, Config is `from_lookup`
--     and `Discovery::validate`
--   Names         the rules on names of backend/src/connections.rs, secret_store.rs and
--     pipelines.rs (`valid_connection_name`, `group_ok`, `validate_name` and the like)
--   Limiter       the sliding windows `take_run_slot` and `take_create_slot` of
--     backend/src/pipelines.rs and `take_access_change_slot` of backend/src/admin_catalogs.rs;
--     the map behind the lock is a function from `sub` to the times, and the clock's answer is
--     an argument
--   Connections   backend/src/connections.rs: Validate is `validate_new`, Access is `authorize`
--     with `scope_prefix` and `secret_path` of backend/src/secret_store.rs, Rotation is
--     `merge_rotation`
--   Pipelines     backend/src/pipelines.rs: Civil is `days_from_civil` and `civil_from_days`,
--     Cron is `parse_cron` with `cron_field`, `cron_value` and `fires_too_often`, Resource and
--     Answers are what the handlers read and what they refuse with, Actions is `run_now`,
--     `pause_pipeline`, `resume_pipeline`, `stop_run` and `delete_pipeline` on a state of the
--     limiter, the writing calls sent so far and the audit lines; Logs is `log_view`, Forms is
--     `validate_sql`, `validate_params`, the options and the placeholders,
--     Provenance is `check_provenance`
--   Warehouses    backend/src/warehouses.rs: `rows`, the classes a caller may use
--   AdminCatalogs backend/src/admin_catalogs.rs: Rows is `row_from_object`, Validate is
--     `validate_access`, Pairs the sets of `audit_change`, Demo is `demo_update`, Update is
--     `update_access` on a state of the limiter, the demo's catalog, the patches and the audit
--   QueryLog      backend/src/query_log.rs (Access), query_log_store.rs (Store: `upsert`), and
--     `list` and `detail` of query_log_api.rs (Pages) on the rows that the database answers with;
--     Records has the types of query_log_event.rs
--   Jobs          backend/src/jobs.rs: `new_id`, `record` and `visible`
--   Values        the methods of `serde_json::Value`
--   Airflow       what backend/src/airflow.rs answers
--
-- The answers of Airflow and of the cluster are functions that the actions take as an argument
-- (`AirflowClient`, `PipelineResources`), arbitrary in the theorems; so are the methods of
-- `serde_json::Value` (`ValueApi`). An action makes each call at most once, so one answer for
-- each call stands for any behaviour of the service. A step between two calls reads nothing that
-- another request may change but the limiter, whose lock makes the taking of a slot one step.
--
-- In Auth the packages `jsonwebtoken` and `url`, the answers of the identity provider and the
-- times at which a call runs are arguments (`JwtApi`, `UrlApi`, `IdentityProvider`, `Moment`).
-- Instants are nanoseconds, as fine as Rust's.
--
-- A text is the sequence of its characters; `byte_len` is its length in bytes. `u32` sums wrap at
-- 2 ^ 32, and the `i64` operations of the dates at 2 ^ 64, as a release build computes them; that
-- `Instant::now() + lifetime` panics for a lifetime of centuries is left out. The loop `while value <= end` of `cron_field` runs on the fuel
-- `rounds`, within which `fill_enough` shows its test to fail.
--
-- Not modelled: the HTTP layer, the clients of Airflow, Trino, the cluster and the secret store,
-- the databases, and the interface in frontend/. Of the actions on pipelines, the views that an
-- answer is shown as (`run_view`, `view_of`) are left out: they read durations and ages in floating
-- point; an action answers what the view is made of.
pub mod Prelude
pub mod Text
pub mod Map
pub mod NumberSet
pub mod Identity
pub mod Names
pub mod Limiter
pub mod AdminCatalogs
pub mod Airflow
pub mod Auth
pub mod Connections
pub mod Jobs
pub mod Pipelines
pub mod QueryLog
pub mod Values
pub mod Warehouses
