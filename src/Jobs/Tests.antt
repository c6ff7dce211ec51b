-- ===== src/Jobs/Tests.antt =====
-- Two jobs of two people.
use stardelt_nova.Prelude.{String, List, ◌≡◌, refl, none, some, [], ◌∷◌, take, All}
use stardelt_nova.Auth.Sessions.Tests.{bob}
use stardelt_nova.Jobs.{Call, newest, new_id, visible}
use stardelt_nova.Jobs.Laws.{records, made, records-newest}

abbrev load : String → Call
load owner = record {
  kind = "load";
  title = "orders";
  status = "succeeded";
  detail = none;
  rows = some 3;
  user = owner;
  owner = owner;
  id_time = 17;
  start_time = 18;
}

abbrev calls : List Call
calls = load "ann" ∷ load "bob" ∷ []

named : new_id "load" 17 5 ≡ "load-17-5"
unfolding new_id
named = refl

records-newest_example :
    ((records calls (record { jobs = []; seq = 5 })).jobs ≡ take newest (made calls 5 []))
    × All
        (λ job. job.owner ≡ "bob")
        (visible (records calls (record { jobs = []; seq = 5 })).jobs (some bob))
records-newest_example = records-newest calls 5 bob refl
