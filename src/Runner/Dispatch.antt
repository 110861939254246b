-- ===== src/Runner/Dispatch.antt =====
-- The activities that list queued jobs and dispatch a runner: `ListQueuedJobs`, `listerFor`,
-- `forgejoFor`, `minterFor`, `storedToken` and `DispatchRunner` of
-- runnerscaler/activities/activities.go; `SplitRepo` of shared/client/git/repos.go.
pub mod Sent
use Prim.Native.String.{String}
use nomad_temporal_jobs.Prelude.{
  ℕ, Bool, true, false, ◌||◌, not, Option, none, some, List, [], ◌∷◌, ◌++◌, if◌then◌else◌,
}
use nomad_temporal_jobs.Prelude.Result.{Result, Failure, ok, err, wrap, non_retryable, context}
use nomad_temporal_jobs.Prelude.Trace.{Run, pure, fail, call, ◌>>=◌, ◌>>◌}
use nomad_temporal_jobs.Prelude.Text.{
  Text, codes, is_empty, join, equal_fold, cut, trim_space, has_substring,
}
use nomad_temporal_jobs.Runner.Config.{mode_vault, mode_forgejo, QueuedJob}
use nomad_temporal_jobs.Runner.Keys.{dispatch_repo_url}

pub record PollRepo : Type 0 where
  pub repo : Text
  pub mode : Text
  pub vault_path : Text
  pub forgejo_url : Text

pub record DispatchSpec : Type 0 where
  pub repo : Text
  pub labels : List Text
  pub job : Text
  pub image : Text
  pub mint_token : Bool
  pub vault_secret : Text
  pub mode : Text
  pub forgejo_url : Text
  pub vault_path : Text

-- The forge clients: the App, one of a stored token, and one of a Forgejo instance and its token.
pub data Client : Type 0 where
  app : Client
  pat : Text → Client
  forgejo : Text → Text → Client

-- The dispatch metadata. A missing map key is `none`.
pub record Meta : Type 0 where
  pub repo_url : Text
  pub labels : Text
  pub runner_token : Option Text
  pub runner_secret : Option Text
  pub runner_image : Option Text

pub data Call : Type 0 where
  read_kv : Text → Call
  new_client : Client → Call
  list_jobs : Client → Text → Text → Call
  mint : Client → Text → Text → Call
  dispatch_job : Text → Meta → Call

-- What the services answer. `secret` is the string in the `token` field of the secret at a path,
-- empty if there is none.
pub record Services : Type 0 where
  pub secret : Text → Result Text
  pub client_ok : Client → Result (Unit {0})
  pub queue : Client → Text → Text → Result (List QueuedJob)
  pub token : Client → Text → Text → Result Text
  pub dispatched : Text → Meta → Result Text
  pub runner_job_id : Text

has_parts : Option (Text × Text) → Option (Text × Text)
has_parts none = none
has_parts (some (owner, name)) =
    if is_empty owner || is_empty name || has_substring name (b'/' ∷ [])
    then none
    else some (owner, name)

-- `git.SplitRepo`
unfoldable pub split_repo : Text → Option (Text × Text)
unfolding has_parts
split_repo repo = has_parts (cut b'/' (trim_space repo))

abbrev pub or_fail : Option (Text × Text) → Run (List Call) (Text × Text)
or_fail none = fail (non_retryable "InvalidRepo")
or_fail (some p) = pure p

abbrev given : Text → Option Text
given t = if is_empty t then none else some t

unfoldable pub dispatch_meta : DispatchSpec → Option Text → Meta
dispatch_meta spec token = record {
  repo_url = dispatch_repo_url spec.mode spec.forgejo_url spec.repo;
  labels = join b',' spec.labels;
  runner_token = token;
  runner_secret = given spec.vault_secret;
  runner_image = given spec.image;
}

module _ (s : Services) where
  unfoldable pub stored_token : PollRepo → Run (List Call) Text
  stored_token r = if is_empty r.vault_path then fail (non_retryable "MissingVaultPath") else do
    token ← call (read_kv r.vault_path) (context "read runner token" (s.secret r.vault_path))
    if is_empty token then fail (non_retryable "MissingRunnerToken") else pure token

  -- a client is built, or its constructor fails
  unfoldable pub build : Client → Run (List Call) Client
  build c = do call (new_client c) (s.client_ok c); pure c

  unfoldable pub forgejo_for : PollRepo → Run (List Call) Client
  unfolding stored_token build
  forgejo_for r =
      if is_empty r.forgejo_url
      then fail (non_retryable "MissingForgejoURL")
      else do token ← stored_token r; build (forgejo r.forgejo_url token)

  unfoldable pub lister_for : PollRepo → Run (List Call) Client
  unfolding forgejo_for
  lister_for r =
      if equal_fold r.mode mode_forgejo
      then forgejo_for r
      else if equal_fold r.mode mode_vault
      then (do token ← stored_token r; build (pat token))
      else pure app

  unfoldable pub minter_for : DispatchSpec → Run (List Call) Client
  unfolding forgejo_for
  minter_for spec =
      if not (equal_fold spec.mode mode_forgejo)
      then pure app
      else forgejo_for (record {
        repo = spec.repo;
        mode = spec.mode;
        vault_path = spec.vault_path;
        forgejo_url = spec.forgejo_url;
      })

  unfoldable pub list_queued_jobs : PollRepo → Run (List Call) (List QueuedJob)
  unfolding lister_for
  list_queued_jobs r = do
    (owner, name) ← or_fail (split_repo r.repo)
    lister ← lister_for r
    call (list_jobs lister owner name) (context "list queued jobs" (s.queue lister owner name))

  -- `if spec.MintToken { … meta["runner_token"] = token }`
  unfoldable pub minted : DispatchSpec → Text → Text → Run (List Call) (Option Text)
  unfolding minter_for
  minted spec owner name =
      if spec.mint_token
      then (do
        minter ← minter_for spec
        token ←
            call (mint minter owner name)
              (context "mint registration token" (s.token minter owner name))
        pure (some token))
      else pure none

  unfoldable pub dispatch_job_id : DispatchSpec → Text
  dispatch_job_id spec = if is_empty spec.job then s.runner_job_id else spec.job

  unfoldable pub dispatch_runner : DispatchSpec → Run (List Call) Text
  unfolding minted dispatch_meta dispatch_job_id
  dispatch_runner spec = do
    (owner, name) ← or_fail (split_repo spec.repo)
    token ← minted spec owner name
    let job_id = dispatch_job_id spec
    let meta = dispatch_meta spec token
    call (dispatch_job job_id meta) (context "dispatch runner" (s.dispatched job_id meta))
