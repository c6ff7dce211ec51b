-- ===== src/Jobs.antt =====
-- The list of the jobs of this process: backend/src/jobs.rs. The list and the counter of the
-- identifiers are one state; the clock's answers are arguments, and the lock, which no holder
-- poisons, makes a record one step.
pub mod Laws
mod Tests
use stardelt_nova.Prelude.{
  ℕ, suc, ◌%◌, ◌^◌, String, Bool, Option, none, some, List, [], ◌∷◌, if◌then◌else◌, take, str_eq,
}
use stardelt_nova.Text.{◌&◌}
use stardelt_nova.Text.Numbers.{to_string}
use stardelt_nova.Identity.{Identity}

pub record Job : Type 0 where
  pub id : String
  pub kind : String
  pub title : String
  pub status : String
  pub started_at : ℕ
  pub detail : Option String
  pub rows : Option ℕ
  pub user : String
  pub owner : String

pub record Registry : Type 0 where
  pub jobs : List Job
  pub seq : ℕ

-- `new_id`, with the counter before it.
unfoldable pub new_id : String → ℕ → ℕ → String
unfolding to_string
new_id prefix now seq = prefix & "-" & to_string now & "-" & to_string seq

-- What a caller of `record` gives, and the two times that the clock answers.
pub record Call : Type 0 where
  pub kind : String
  pub title : String
  pub status : String
  pub detail : Option String
  pub rows : Option ℕ
  pub user : String
  pub owner : String
  pub id_time : ℕ
  pub start_time : ℕ

unfoldable pub job_of : ℕ → Call → Job
unfolding new_id
job_of seq call = record {
  id = new_id call.kind call.id_time seq;
  kind = call.kind;
  title = call.title;
  status = call.status;
  started_at = call.start_time;
  detail = call.detail;
  rows = call.rows;
  user = call.user;
  owner = call.owner;
}

-- How many jobs are kept.
abbrev pub newest : ℕ
newest = 200

-- The counter is an `AtomicU64`, which wraps.
abbrev pub next_seq : ℕ → ℕ
next_seq seq = suc seq % 2 ^ 64

unfoldable pub record_job : Registry → Call → Registry × Job
unfolding job_of
record_job registry call =
    let job = job_of registry.seq call in
    (record { jobs = take newest (job ∷ registry.jobs); seq = next_seq registry.seq }, job)

unfoldable pub owned : String → List Job → List Job
owned sub [] = []
owned sub (job ∷ jobs) =
    let rest = owned sub jobs in if str_eq job.owner sub then job ∷ rest else rest

-- `visible`; without a sign-in there is one user, who sees everything.
unfoldable pub visible : List Job → Option Identity → List Job
unfolding owned
visible jobs none = jobs
visible jobs (some who) = if who.is_admin then jobs else owned who.sub jobs
