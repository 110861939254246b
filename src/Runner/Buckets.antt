-- ===== src/Runner/Buckets.antt =====
-- The demand side: queued jobs grouped by (repository, labels), `bucketQueuedJobs` of
-- runnerscaler/workflows/poll_dispatch.go. The map of buckets and the order in which its keys were
-- first seen are one association list, in that order.
pub mod Exact
use nomad_temporal_jobs.Prelude.{ℕ, suc, Bool, List, [], ◌∷◌, if◌then◌else◌}
use nomad_temporal_jobs.Prelude.Text.{Text, text_eq}
use nomad_temporal_jobs.Runner.Config.{QueuedJob}
use nomad_temporal_jobs.Runner.Keys.{runner_bucket_key}

pub record RunnerBucket : Type 0 where
  pub repo : Text
  pub labels : List Text
  pub queued : ℕ

abbrev pub Buckets : Type 0
Buckets = List (Text × RunnerBucket)

-- The body of the inner loop, for a job with this key.
unfoldable pub add_job : Text → Text → List Text → Buckets → Buckets
add_job key repo labels [] = (key, record { repo = repo; labels = labels; queued = 1 }) ∷ []
add_job key repo labels ((k, b) ∷ m) =
    let rest = add_job key repo labels m in
    if text_eq k key then (k, record b { queued = suc b.queued }) ∷ m else (k, b) ∷ rest

unfoldable pub add_repo_jobs : Text → List QueuedJob → Buckets → Buckets
add_repo_jobs repo [] m = m
add_repo_jobs repo (job ∷ jobs) m =
    add_repo_jobs repo jobs (add_job (runner_bucket_key repo job.labels) repo job.labels m)

-- The results of the scan are aligned to the repositories, so both lists end together.
unfoldable pub bucket_from : List Text → List (List QueuedJob) → Buckets → Buckets
bucket_from [] queued m = m
bucket_from (repo ∷ repos) [] m = m
bucket_from (repo ∷ repos) (jobs ∷ queued) m = bucket_from repos queued (add_repo_jobs repo jobs m)

unfoldable pub bucket_queued_jobs : List Text → List (List QueuedJob) → Buckets
unfolding bucket_from
bucket_queued_jobs repos queued = bucket_from repos queued []
