-- ===== src/Runner/Queue/Distinct.antt =====
-- Each queued job is listed once.
use nomad_temporal_jobs.Prelude.{
  ℕ, ◌≡◌, refl, Bool, ◌&&◌, ◌||◌, not, ◌==◌, any, count, List, [], ◌∷◌, ◌++◌, arith, if◌then◌else◌,
}
use nomad_temporal_jobs.Prelude.Result.{ok}
use nomad_temporal_jobs.Prelude.Text.{codes}
use nomad_temporal_jobs.Runner.Config.{QueuedJob}
use nomad_temporal_jobs.Runner.Queue.{
  WorkflowJob, is_queued_self_hosted, kept_jobs, seen, dedup_from, dedup_by_id, Listings,
  jobs_of_runs, jobs_of_statuses, list_queued_self_hosted_jobs,
}

abbrev pub has_id : ℕ → QueuedJob → Bool
has_id id j = j.id == id

-- how often an ID comes behind IDs that were seen
dedup_from-count :
    (ids : List ℕ) (jobs : List QueuedJob) (id : ℕ)
    → count (has_id id) (dedup_from ids jobs)
      ≡ (if any (has_id id) jobs && not (seen ids id) then 1 else 0)
unfolding dedup_from seen
dedup_from-count ids [] id = ground arith
dedup_from-count ids (j ∷ jobs) id =
    ground (arith, dedup_from-count ids jobs id, dedup_from-count (j.id ∷ ids) jobs id)

any-append :
    (p : QueuedJob → Bool) (xs ys : List QueuedJob) → any p (xs ++ ys) ≡ (any p xs || any p ys)
any-append p [] ys = refl
any-append p (x ∷ xs) ys = ground (arith, any-append p xs ys)

-- a queued job for a self-hosted runner, with that ID
abbrev pub wants : ℕ → WorkflowJob → Bool
wants id j = is_queued_self_hosted j && j.id == id

any-kept_jobs :
    (id : ℕ) (js : List WorkflowJob) → any (has_id id) (kept_jobs js) ≡ any (wants id) js
unfolding kept_jobs
any-kept_jobs id [] = refl
any-kept_jobs id (j ∷ js) = ground (arith, any-kept_jobs id js)

module _ (l : Listings) (jobs_of : ℕ → List WorkflowJob) where
  abbrev flat : List ℕ → List QueuedJob
  flat [] = []
  flat (r ∷ rs) = kept_jobs (jobs_of r) ++ flat rs

  -- one of the runs has the job
  abbrev pub any_run : ℕ → List ℕ → Bool
  any_run id rs = any (λ r. any (wants id) (jobs_of r)) rs

  any-flat : (id : ℕ) (rs : List ℕ) → any (has_id id) (flat rs) ≡ any_run id rs
  any-flat id [] = refl
  any-flat id (r ∷ rs) = ground (
    arith,
    any-flat id rs,
    any-append (has_id id) (kept_jobs (jobs_of r)) (flat rs),
    any-kept_jobs id (jobs_of r),
  )

  jobs_of_runs-flat :
      (rs : List ℕ) → ((r : ℕ) → l.jobs r ≡ ok (jobs_of r)) → jobs_of_runs l rs ≡ ok (flat rs)
  unfolding jobs_of_runs
  jobs_of_runs-flat [] h = refl
  jobs_of_runs-flat (r ∷ rs) h = ground (arith, h r, jobs_of_runs-flat rs h)

  -- When GitHub answers the listings, every job that is queued for a self-hosted runner in a queued
  -- or a running run is listed exactly once, and no other job is.
  pub list_queued_self_hosted_jobs_exact :
      (qs ps : List ℕ)
      → l.runs (codes "queued") ≡ ok qs
      → l.runs (codes "in_progress") ≡ ok ps
      → ((r : ℕ) → l.jobs r ≡ ok (jobs_of r))
      → (js : List QueuedJob) × (list_queued_self_hosted_jobs l ≡ ok js)
        × ((id : ℕ) → count (has_id id) js ≡ (if any_run id qs || any_run id ps then 1 else 0))
  unfolding list_queued_self_hosted_jobs jobs_of_statuses dedup_by_id seen
  list_queued_self_hosted_jobs_exact qs ps q p h = (
    dedup_by_id (flat qs ++ (flat ps ++ [])),
    ground (arith, q, p, jobs_of_runs-flat qs h, jobs_of_runs-flat ps h),
    λ id. ground (
      arith,
      dedup_from-count [] (flat qs ++ (flat ps ++ [])) id,
      any-append (has_id id) (flat qs) (flat ps ++ []),
      any-append (has_id id) (flat ps) [],
      any-flat id qs,
      any-flat id ps,
    ),
  )
