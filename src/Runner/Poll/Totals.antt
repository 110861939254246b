-- ===== src/Runner/Poll/Totals.antt =====
-- What a tick reports, and that a failure dispatches nothing.
use nomad_temporal_jobs.Prelude.{
  ℕ, suc, ◌+◌, ◌≡◌, refl, ℤ, List, [], ◌∷◌, map, length, arith, count, ◌∙◌,
}
use nomad_temporal_jobs.Prelude.Result.{Result, ok, err, context}
use nomad_temporal_jobs.Prelude.Text.{Text, sort_strings}
use nomad_temporal_jobs.Runner.Config.{RepoConfig, Configs, QueuedJob, repo_config, profile_jobs}
use nomad_temporal_jobs.Runner.Count.{Counts}
use nomad_temporal_jobs.Runner.Keys.{runner_bucket_key}
use nomad_temporal_jobs.Runner.Buckets.{
  Buckets, add_job, add_repo_jobs, bucket_from, bucket_queued_jobs,
}
use nomad_temporal_jobs.Runner.Shortfall.{Child}
use nomad_temporal_jobs.Runner.Shortfall.Children.{queued_sum, dispatch_shortfall_exact}
use nomad_temporal_jobs.Runner.Poll.{
  Answers, PollResult, names, scan_repos, dispatch_counted, poll_repos, poll_and_dispatch,
}

queued_sum-add_job :
    (k repo : Text) (labels : List Text) (m : Buckets)
    → queued_sum (add_job k repo labels m) ≡ suc (queued_sum m)
unfolding add_job
queued_sum-add_job k repo labels [] = omega arith
queued_sum-add_job k repo labels ((j, b) ∷ m) = ground (arith, queued_sum-add_job k repo labels m)

queued_sum-add_repo_jobs :
    (repo : Text) (jobs : List QueuedJob) (m : Buckets)
    → queued_sum (add_repo_jobs repo jobs m) ≡ queued_sum m + length jobs
unfolding add_repo_jobs
queued_sum-add_repo_jobs repo [] m = omega arith
queued_sum-add_repo_jobs repo (j ∷ jobs) m = omega (
  arith,
  queued_sum-add_repo_jobs repo jobs (add_job (runner_bucket_key repo j.labels) repo j.labels m),
  queued_sum-add_job (runner_bucket_key repo j.labels) repo j.labels m,
)

abbrev pub total : List (List QueuedJob) → ℕ
total [] = 0
total (jobs ∷ queued) = length jobs + total queued

module _ (f : Text → List QueuedJob) where
  queued_sum-bucket_from :
      (repos : List Text) (m : Buckets)
      → queued_sum (bucket_from repos (map f repos) m) ≡ queued_sum m + total (map f repos)
  unfolding bucket_from
  queued_sum-bucket_from [] m = omega arith
  queued_sum-bucket_from (repo ∷ repos) m = omega (
    arith,
    queued_sum-bucket_from repos (add_repo_jobs repo (f repo) m),
    queued_sum-add_repo_jobs repo (f repo) m,
  )

-- the jobs that the scans return, over all repositories of the configuration
abbrev pub scanned_jobs : Result (List (Text × RepoConfig)) → Answers → ℕ
scanned_jobs (err e) a = 0
scanned_jobs (ok m) a = total (scan_repos a (repo_config m) (sort_strings (names m)))

-- what a tick's result says of its children, and of a number of queued jobs
abbrev pub Reports : ℕ → Result PollResult → List Child → Type 0
Reports queued (err e) children = children ≡ []
Reports queued (ok result) children =
    (result.queued_jobs ≡ queued)
    × (result.runners_started ≡ count (λ (c : Child). c.started) children)

dispatch_counted-Reports :
    (a : Answers) (reap_after : ℤ) (repos : List Text) (cfgs : Configs) (r : Result Counts)
    → let (result, children) = dispatch_counted a reap_after repos cfgs r in
      Reports (total (scan_repos a cfgs repos)) result children
unfolding dispatch_counted bucket_queued_jobs
dispatch_counted-Reports a reap_after repos cfgs (err e) = refl
dispatch_counted-Reports a reap_after repos cfgs (ok counts) =
    let t =
      dispatch_shortfall_exact a.start_child counts cfgs reap_after
        (bucket_queued_jobs repos (scan_repos a cfgs repos)) in
    (t.3 ∙ queued_sum-bucket_from _ repos [] ∙ omega arith, t.2)

-- A tick that succeeds has counted every job that the scans returned, once, and every child that
-- started. A tick that fails, since the configuration cannot be loaded or the active runners cannot
-- be counted, has asked for no child.
pub poll_and_dispatch-Reports :
    (loaded : Result (List (Text × RepoConfig))) (a : Answers) (reap_after : ℤ)
    → Reports
        (scanned_jobs loaded a)
        (poll_and_dispatch loaded a reap_after).0
        (poll_and_dispatch loaded a reap_after).1
unfolding poll_and_dispatch poll_repos
poll_and_dispatch-Reports (err e) a reap_after = refl
poll_and_dispatch-Reports (ok m) a reap_after =
    dispatch_counted-Reports a reap_after (sort_strings (names m)) (repo_config m) (
      context "count active runners"
        (a.count_active (profile_jobs (sort_strings (names m)) (repo_config m) [])))
