-- ===== src/Runner/Buckets/Exact.antt =====
-- The buckets count every queued job once, in the bucket of its key.
use nomad_temporal_jobs.Prelude.{
  ℕ, suc, ◌+◌, ◌≡◌, refl, ◌∙◌, List, [], ◌∷◌, arith, count, if◌then◌else◌,
}
use nomad_temporal_jobs.Prelude.Text.{Text, text_eq, text_eq_iff}
use nomad_temporal_jobs.Runner.Config.{QueuedJob}
use nomad_temporal_jobs.Runner.Keys.{runner_bucket_key}
use nomad_temporal_jobs.Runner.Buckets.{
  Buckets, add_job, add_repo_jobs, bucket_from, bucket_queued_jobs,
}

-- the queued count of a key's bucket, 0 without one
abbrev pub queued_of : Buckets → Text → ℕ
queued_of [] key = 0
queued_of ((k, b) ∷ m) key = let rest = queued_of m key in if text_eq k key then b.queued else rest

-- the scanned jobs with a key
abbrev pub jobs_with : Text → Text → List QueuedJob → ℕ
jobs_with key repo = count (λ (j : QueuedJob). text_eq (runner_bucket_key repo j.labels) key)

abbrev pub scanned_with : Text → List Text → List (List QueuedJob) → ℕ
scanned_with key [] queued = 0
scanned_with key (repo ∷ repos) [] = 0
scanned_with key (repo ∷ repos) (jobs ∷ queued) =
    jobs_with key repo jobs + scanned_with key repos queued

-- each entry has the key of its repository and labels, which no later entry has
abbrev pub IsKeyed : Buckets → Type 0
IsKeyed [] = Unit
IsKeyed ((k, b) ∷ m) = (k ≡ runner_bucket_key b.repo b.labels) × (queued_of m k ≡ 0) × IsKeyed m

queued_of-add_job :
    (k repo : Text) (labels : List Text) (m : Buckets) (key : Text)
    → queued_of (add_job k repo labels m) key
      ≡ (if text_eq k key then suc (queued_of m key) else queued_of m key)
unfolding add_job
queued_of-add_job k repo labels [] key = refl
queued_of-add_job k repo labels ((j, b) ∷ m) key = ground (
  arith,
  queued_of-add_job k repo labels m key,
  text_eq_iff j k,
  text_eq_iff k key,
  text_eq_iff j key,
)

add_job-IsKeyed :
    (repo : Text) (labels : List Text) (m : Buckets)
    → IsKeyed m
    → IsKeyed (add_job (runner_bucket_key repo labels) repo labels m)
unfolding add_job
add_job-IsKeyed repo labels [] h = (refl, refl, tt)
add_job-IsKeyed repo labels ((k, b) ∷ m) h = ground (
  arith,
  add_job-IsKeyed repo labels m h.2,
  queued_of-add_job (runner_bucket_key repo labels) repo labels m k,
  text_eq_iff k (runner_bucket_key repo labels),
  text_eq_iff (runner_bucket_key repo labels) k,
)

queued_of-add_repo_jobs :
    (repo : Text) (jobs : List QueuedJob) (m : Buckets) (key : Text)
    → queued_of (add_repo_jobs repo jobs m) key ≡ queued_of m key + jobs_with key repo jobs
unfolding add_repo_jobs
queued_of-add_repo_jobs repo [] m key = omega arith
queued_of-add_repo_jobs repo (j ∷ jobs) m key = ground (
  arith,
  queued_of-add_repo_jobs repo jobs (add_job (runner_bucket_key repo j.labels) repo j.labels m) key,
  queued_of-add_job (runner_bucket_key repo j.labels) repo j.labels m key,
)

add_repo_jobs-IsKeyed :
    (repo : Text) (jobs : List QueuedJob) (m : Buckets)
    → IsKeyed m
    → IsKeyed (add_repo_jobs repo jobs m)
unfolding add_repo_jobs
add_repo_jobs-IsKeyed repo [] m h = h
add_repo_jobs-IsKeyed repo (j ∷ jobs) m h =
    add_repo_jobs-IsKeyed repo jobs (add_job (runner_bucket_key repo j.labels) repo j.labels m)
      (add_job-IsKeyed repo j.labels m h)

queued_of-bucket_from :
    (repos : List Text) (queued : List (List QueuedJob)) (m : Buckets) (key : Text)
    → queued_of (bucket_from repos queued m) key ≡ queued_of m key + scanned_with key repos queued
unfolding bucket_from
queued_of-bucket_from [] queued m key = omega arith
queued_of-bucket_from (repo ∷ repos) [] m key = omega arith
queued_of-bucket_from (repo ∷ repos) (jobs ∷ queued) m key = omega (
  arith,
  queued_of-bucket_from repos queued (add_repo_jobs repo jobs m) key,
  queued_of-add_repo_jobs repo jobs m key,
)

bucket_from-IsKeyed :
    (repos : List Text) (queued : List (List QueuedJob)) (m : Buckets)
    → IsKeyed m
    → IsKeyed (bucket_from repos queued m)
unfolding bucket_from
bucket_from-IsKeyed [] queued m h = h
bucket_from-IsKeyed (repo ∷ repos) [] m h = h
bucket_from-IsKeyed (repo ∷ repos) (jobs ∷ queued) m h =
    bucket_from-IsKeyed repos queued (add_repo_jobs repo jobs m)
      (add_repo_jobs-IsKeyed repo jobs m h)

-- The queued count of every key is the number of scanned jobs whose repository and labels have that
-- key, and each bucket stands under the key of its own repository and labels, in no second entry.
pub bucket_queued_jobs_exact :
    (repos : List Text) (queued : List (List QueuedJob))
    → ((key : Text)
        → queued_of (bucket_queued_jobs repos queued) key ≡ scanned_with key repos queued)
      × IsKeyed (bucket_queued_jobs repos queued)
unfolding bucket_queued_jobs
bucket_queued_jobs_exact repos queued = (
  λ key. queued_of-bucket_from repos queued [] key ∙ omega arith,
  bucket_from-IsKeyed repos queued [] tt,
)
