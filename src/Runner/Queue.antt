-- ===== src/Runner/Queue.antt =====
-- Queued jobs, as the forges list them: `listQueuedSelfHostedJobs` of shared/client/git/runners.go
-- and `ListQueuedSelfHostedJobs` of shared/client/forgejo/forgejo.go. The listings are parameters; a
-- page that fails is the error of the whole listing.
pub mod Distinct
use nomad_temporal_jobs.Prelude.{
  ℕ, zero, Bool, true, false, ◌&&◌, ◌||◌, not, ◌==◌, List, [], ◌∷◌, ◌++◌, if◌then◌else◌,
}
use nomad_temporal_jobs.Prelude.Result.{Result, Failure, external, ok, err, context, ◌>>=◌}
use nomad_temporal_jobs.Prelude.Text.{Text, codes, text_eq, contains, is_empty, equal_fold}
use nomad_temporal_jobs.Runner.Config.{QueuedJob}

-- a job of a workflow run, as GitHub lists it
pub record WorkflowJob : Type 0 where
  pub id : ℕ
  pub run_id : ℕ
  pub name : Text
  pub status : Text
  pub labels : List Text

unfoldable pub is_queued_self_hosted : WorkflowJob → Bool
is_queued_self_hosted j =
    text_eq j.status (codes "queued") && contains j.labels (codes "self-hosted")

unfoldable pub kept_jobs : List WorkflowJob → List QueuedJob
unfolding is_queued_self_hosted
kept_jobs [] = []
kept_jobs (j ∷ js) =
    let rest = kept_jobs js in
    if is_queued_self_hosted j
    then record { id = j.id; run_id = j.run_id; name = j.name; labels = j.labels } ∷ rest
    else rest

-- whether an ID was seen
unfoldable pub seen : List ℕ → ℕ → Bool
seen [] id = false
seen (i ∷ is) id = (i == id) || seen is id

unfoldable pub dedup_from : List ℕ → List QueuedJob → List QueuedJob
unfolding seen
dedup_from ids [] = []
dedup_from ids (j ∷ js) =
    let fresh = dedup_from (j.id ∷ ids) js in
    let rest = dedup_from ids js in if seen ids j.id then rest else j ∷ fresh

unfoldable pub dedup_by_id : List QueuedJob → List QueuedJob
unfolding dedup_from
dedup_by_id jobs = dedup_from [] jobs

-- The listings of a repository: the runs of a status, and the jobs of a run.
pub record Listings : Type 0 where
  pub runs : Text → Result (List ℕ)
  pub jobs : ℕ → Result (List WorkflowJob)

module _ (l : Listings) where
  unfoldable pub jobs_of_runs : List ℕ → Result (List QueuedJob)
  unfolding kept_jobs
  jobs_of_runs [] = ok []
  jobs_of_runs (run ∷ runs) =
      let rest = jobs_of_runs runs in
      context "list jobs for run" (l.jobs run) >>= λ js. rest >>= λ more. ok (kept_jobs js ++ more)

  unfoldable pub jobs_of_statuses : List Text → Result (List QueuedJob)
  unfolding jobs_of_runs
  jobs_of_statuses [] = ok []
  jobs_of_statuses (status ∷ statuses) =
      let rest = jobs_of_statuses statuses in
      context "list runs" (l.runs status) >>= λ runs.
      jobs_of_runs runs >>= λ js. rest >>= λ more. ok (js ++ more)

  unfoldable pub list_queued_self_hosted_jobs : Result (List QueuedJob)
  unfolding jobs_of_statuses dedup_by_id
  list_queued_self_hosted_jobs =
      jobs_of_statuses (codes "queued" ∷ codes "in_progress" ∷ []) >>= λ all. ok (dedup_by_id all)

-- a job, as Forgejo lists it
pub record ActionJob : Type 0 where
  pub id : ℕ
  pub name : Text
  pub runs_on : List Text
  pub status : Text
  pub task_id : ℕ

unfoldable pub is_waiting : ActionJob → Bool
is_waiting j = equal_fold j.status (codes "waiting") && (j.task_id == 0)

waiting_jobs : List ActionJob → List QueuedJob
unfolding is_waiting
waiting_jobs [] = []
waiting_jobs (j ∷ js) =
    let rest = waiting_jobs js in
    if is_waiting j
    then record { id = j.id; run_id = 0; name = j.name; labels = j.runs_on } ∷ rest
    else rest

unfoldable pub list_forgejo_jobs : Result (List ActionJob) → Result (List QueuedJob)
unfolding waiting_jobs
list_forgejo_jobs answer = context "list queued jobs" answer >>= λ jobs. ok (waiting_jobs jobs)

given : Text → Result Text
given token = if is_empty token then err (external "empty registration token") else ok token

unfoldable pub create_forgejo_token : Result Text → Result Text
unfolding given
create_forgejo_token answer = context "mint registration token" answer >>= given
