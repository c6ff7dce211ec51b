-- ===== src/Jobs/Laws.antt =====
-- What the list shows after any number of records.
use stardelt_nova.Prelude.{
  ℕ, zero, suc, String, ◌≡◌, refl, sym, ap, ◌∙◌, false, some, List, [], ◌∷◌, take, str_eq, eq_iff,
  All, Bool-cases, inl, inr,
}
use stardelt_nova.Identity.{Identity}
use stardelt_nova.Jobs.{Job, Registry, Call, job_of, newest, next_seq, record_job, owned, visible}

unfoldable pub records : List Call → Registry → Registry
unfolding record_job
records [] registry = registry
records (call ∷ calls) registry = records calls (record_job registry call).0

-- Every job that was made, the last first.
unfoldable pub made : List Call → ℕ → List Job → List Job
unfolding job_of
made [] seq before = before
made (call ∷ calls) seq before = made calls (next_seq seq) (job_of seq call ∷ before)

take-take : (n : ℕ) (jobs : List Job) → take n (take n jobs) ≡ take n jobs
take-take zero jobs = refl
take-take (suc n) [] = refl
take-take (suc n) (job ∷ jobs) = ap (λ rest. job ∷ rest) (take-take n jobs)

take-less : (n : ℕ) (jobs : List Job) → take n (take (suc n) jobs) ≡ take n jobs
take-less zero jobs = refl
take-less (suc n) [] = refl
take-less (suc n) (job ∷ jobs) = ap (λ rest. job ∷ rest) (take-less n jobs)

take-cons :
    (n : ℕ) (job : Job) (old new : List Job)
    → take n old ≡ take n new
    → take n (job ∷ old) ≡ take n (job ∷ new)
take-cons zero job old new h = refl
take-cons (suc n) job old new h =
    ap (λ rest. job ∷ rest) (sym (take-less n old) ∙ ap (take n) h ∙ take-less n new)

-- Jobs that are cut off are never shown again.
take-made :
    (n : ℕ) (calls : List Call) (seq : ℕ) (old new : List Job)
    → take n old ≡ take n new
    → take n (made calls seq old) ≡ take n (made calls seq new)
unfolding made
take-made n [] seq old new h = h
take-made n (call ∷ calls) seq old new h =
    take-made n calls (next_seq seq) _ _ (take-cons n (job_of seq call) old new h)

take-records :
    (calls : List Call) (registry : Registry)
    → take newest registry.jobs ≡ registry.jobs
    → (records calls registry).jobs ≡ take newest (made calls registry.seq registry.jobs)
unfolding records made record_job
take-records [] registry h = sym h
take-records (call ∷ calls) registry h =
    let job = job_of registry.seq call in
    take-records calls (record_job registry call).0 (take-take newest (job ∷ registry.jobs))
    ∙ take-made newest calls (next_seq registry.seq) (take newest (job ∷ registry.jobs))
        (job ∷ registry.jobs) (take-take newest (job ∷ registry.jobs))

owned-All : (sub : String) (jobs : List Job) → All (λ job. job.owner ≡ sub) (owned sub jobs)
unfolding owned
owned-All sub [] = tt
owned-All sub (job ∷ jobs) = elim (Bool-cases (str_eq job.owner sub)) [
  | inl own ↦ rw own ((eq_iff job.owner sub).0 own, owned-All sub jobs)
  | inr other ↦ rw other (owned-All sub jobs)
]

-- After any records in a process that starts with no job, the list holds exactly the newest 200
-- of the jobs that were made, the last first, and what somebody who is no administrator sees of
-- it are that person's own jobs only.
pub records-newest :
    (calls : List Call) (seq : ℕ) (who : Identity)
    → who.is_admin ≡ false
    → ((records calls (record { jobs = []; seq = seq })).jobs ≡ take newest (made calls seq []))
      × All
          (λ job. job.owner ≡ who.sub)
          (visible (records calls (record { jobs = []; seq = seq })).jobs (some who))
unfolding visible
records-newest calls seq who plain =
    (take-records calls (record { jobs = []; seq = seq }) refl, rw plain (owned-All who.sub _))
