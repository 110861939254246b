-- ===== src/Runner/Child.antt =====
-- One runner's life: `HandleRunner` of runnerscaler/workflows/handle_job.go, with `WaitRunnerDone`
-- and `ReapRunner` of runnerscaler/activities/activities.go.
pub mod Life
use nomad_temporal_jobs.Prelude.{
  ℕ, ◌*◌, ℤ, pos, ltb_ℤ, Bool, true, false, ◌||◌, Option, none, some, List, [], ◌∷◌, if◌then◌else◌,
}
use nomad_temporal_jobs.Prelude.Result.{Result, Failure, ok, err, wrap, external, context}
use nomad_temporal_jobs.Prelude.Trace.{Run, pure, call, ignore, ◌>>=◌, ◌>>◌}
use nomad_temporal_jobs.Prelude.Text.{Text}
use nomad_temporal_jobs.Runner.Shortfall.{RunnerSpec}
use nomad_temporal_jobs.Runner.Dispatch.{DispatchSpec}

unfoldable pub dispatch_spec : RunnerSpec → DispatchSpec
dispatch_spec spec = record {
  repo = spec.repo;
  labels = spec.labels;
  job = spec.job;
  image = spec.image;
  mint_token = spec.mint_token;
  vault_secret = spec.vault_secret;
  mode = spec.mode;
  forgejo_url = spec.forgejo_url;
  vault_path = spec.vault_path;
}

-- `time.Hour`, in nanoseconds
abbrev pub default_reap_after : ℤ
default_reap_after = pos (3600 * 1_000_000_000)

unfoldable pub reap_ceiling : ℤ → ℤ
reap_ceiling reap_after = if ltb_ℤ (pos 0) reap_after then reap_after else default_reap_after

-- The activities of the child workflow, the wait with its ceiling.
pub data Step : Type 0 where
  dispatch : DispatchSpec → Step
  wait_done : Text → ℤ → Step
  reap : Text → Step

-- How the activities end.
pub record Outcomes : Type 0 where
  pub dispatched : DispatchSpec → Result Text
  pub waited : Text → Result (Unit {0})
  pub reaped : Text → Result (Unit {0})

unfoldable pub handle_runner : Outcomes → RunnerSpec → Run (List Step) (Unit {0})
unfolding dispatch_spec reap_ceiling
handle_runner o spec = do
  id ←
      call (dispatch (dispatch_spec spec))
        (context "dispatch runner" (o.dispatched (dispatch_spec spec)))
  ignore (call (wait_done id (reap_ceiling spec.reap_after)) (o.waited id))
      λ _. call (reap id) (context "reap runner" (o.reaped id))

-- `ReapRunner`: the answer of `StopJob`, and whether its error says that the job is not there.
unfoldable pub reap_runner : (Failure → Bool) → Result (Unit {0}) → Result (Unit {0})
reap_runner is_job_not_found (ok u) = ok u
reap_runner is_job_not_found (err e) =
    if is_job_not_found e then ok tt else err (wrap "reap runner" e)

-- One round of the wait: the poll's answer, and whether the context ended before the next poll.
pub record Poll : Type 0 where
  pub answer : Result Bool
  pub context_done : Bool

after_poll : Result Bool → Bool → Option (Result (Unit {0})) → Option (Result (Unit {0}))
after_poll (ok true) c rest = some (ok tt)
after_poll (ok false) true rest = some (err (external "context"))
after_poll (ok false) false rest = rest
after_poll (err e) true rest = some (err (external "context"))
after_poll (err e) false rest = rest

-- `none` while the rounds so far leave the loop running. The context's own error is `err`.
unfoldable pub wait_runner_done : List Poll → Option (Result (Unit {0}))
unfolding after_poll
wait_runner_done [] = none
wait_runner_done (p ∷ polls) = after_poll p.answer p.context_done (wait_runner_done polls)
