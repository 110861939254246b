-- ===== src/Runner/Poll.antt =====
-- One tick of the scheduled workflow: `PollAndDispatch` and `scanRepos` of
-- runnerscaler/workflows/poll_dispatch.go. The scan's fan-out leaves each repository's result at its
-- own index (see FanOut), so the scan is a map over the repositories.
pub mod Order
pub mod Totals
use nomad_temporal_jobs.Prelude.{ℕ, ℤ, List, [], ◌∷◌, map, length}
use nomad_temporal_jobs.Prelude.Result.{Result, ok, err, context}
use nomad_temporal_jobs.Prelude.Text.{Text, sort_strings}
use nomad_temporal_jobs.Runner.Config.{RepoConfig, Configs, QueuedJob, repo_config, profile_jobs}
use nomad_temporal_jobs.Runner.Count.{Counts}
use nomad_temporal_jobs.Runner.Buckets.{bucket_queued_jobs}
use nomad_temporal_jobs.Runner.Shortfall.{RunnerSpec, Child, Tick, first_tick, dispatch_shortfall}
use nomad_temporal_jobs.Runner.Dispatch.{PollRepo}
use nomad_temporal_jobs.Runner.Modes.{poll_repo}

pub record PollResult : Type 0 where
  pub repos_scanned : ℕ
  pub queued_jobs : ℕ
  pub active_runners : ℕ
  pub runners_started : ℕ

-- A scan that fails leaves its repository without jobs for this tick.
or_no_jobs : Result (List QueuedJob) → List QueuedJob
or_no_jobs (ok jobs) = jobs
or_no_jobs (err e) = []

-- The activities, as they answer in this tick.
pub record Answers : Type 0 where
  pub list_queued : PollRepo → Result (List QueuedJob)
  pub count_active : List Text → Result Counts
  pub start_child : ℕ → RunnerSpec → Result (Unit {0})

unfoldable pub scan_repos : Answers → Configs → List Text → List (List QueuedJob)
unfolding or_no_jobs
scan_repos a cfgs = map (λ repo. or_no_jobs (a.list_queued (poll_repo repo (cfgs repo))))

-- The tick once the active runners are counted, or could not be.
unfoldable pub dispatch_counted :
    Answers → ℤ → List Text → Configs → Result Counts → Result PollResult × List Child
unfolding scan_repos
dispatch_counted a reap_after repos cfgs (err e) = (err e, [])
dispatch_counted a reap_after repos cfgs (ok counts) =
    let t =
      dispatch_shortfall a.start_child counts cfgs reap_after
        (bucket_queued_jobs repos (scan_repos a cfgs repos)) first_tick in
    (
      ok (record {
        repos_scanned = length repos;
        queued_jobs = t.queued_jobs;
        active_runners = t.active_runners;
        runners_started = t.runners_started;
      }),
      t.children,
    )

-- The tick once the configuration is loaded, over the repositories in sorted order.
unfoldable pub poll_repos : Answers → ℤ → List Text → Configs → Result PollResult × List Child
unfolding dispatch_counted
poll_repos a reap_after repos cfgs =
    dispatch_counted a reap_after repos cfgs
      (context "count active runners" (a.count_active (profile_jobs repos cfgs [])))

abbrev pub names : List (Text × RepoConfig) → List Text
names = map (λ (e : Text × RepoConfig). e.0)

-- The result of a tick, and the children that it asked to start.
unfoldable pub poll_and_dispatch :
    Result (List (Text × RepoConfig)) → Answers → ℤ → Result PollResult × List Child
unfolding poll_repos
poll_and_dispatch loaded a reap_after = elim (context "load config" loaded) [
  | err e ↦ (err e, [])
  | ok m ↦ poll_repos a reap_after (sort_strings (names m)) (repo_config m)
]
