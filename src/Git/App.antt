-- ===== src/Git/App.antt =====
-- The GitHub App: `NewGitHub`, `MintWorkflowToken`, `SetRepoSecret` and `sealSecret` of
-- shared/client/git/github.go,
-- `installationClient`, `ListQueuedSelfHostedJobs` and `CreateRunnerRegistrationToken` of
-- shared/client/git/runners.go. GitHub is a record of its answers; beside a result stand the requests
-- that were made, in order. The listings of runs and jobs (Runner/Queue) are one request there.
pub mod Scoped
use nomad_temporal_jobs.Prelude.{
  ℕ, ◌==◌, ℤ, pos, eqb_ℤ, Bool, true, false, length, List, [], ◌∷◌, ◌++◌, Option, none, some,
  if◌then◌else◌,
}
use nomad_temporal_jobs.Prelude.Result.{Result, Failure, external, ok, err}
use nomad_temporal_jobs.Prelude.Text.{Text, codes, is_empty}
use nomad_temporal_jobs.Prelude.Trace.{Run, pure, fail, within, call, ◌>>=◌, ◌>>◌}
use nomad_temporal_jobs.Runner.Config.{QueuedJob}
use nomad_temporal_jobs.Runner.Queue.{Listings, list_queued_self_hosted_jobs}

-- what a token may do in a repository
pub data Permission : Type 0 where
  contents_write pull_requests_write secrets_write administration_write actions_read : Permission

pub record EncryptedSecret : Type 0 where
  pub name : Text
  pub key_id : Text
  pub encrypted_value : Text

pub data GitRequest : Type 0 where
  list_installations : GitRequest
  create_installation_token : ℤ → List Text → List Permission → GitRequest
  get_repo_public_key : Text → Text → GitRequest
  put_repo_secret : Text → Text → EncryptedSecret → GitRequest
  create_registration_token : Text → Text → GitRequest
  list_runs_and_jobs : Text → Text → GitRequest

-- A token, with its expiry.
pub record Token : Type 0 where
  pub token : Text
  pub expires_at : ℕ

pub record PublicKey : Type 0 where
  pub key : Text
  pub key_id : Text

-- The answers of GitHub and of the library for it. The token client of an installation is the token.
pub record GitHubApi : Type 0 where
  pub app_client : Result (Unit {0})
  pub installations : Result (List ℤ)
  pub installation_token : ℤ → List Text → List Permission → Result Token
  pub token_client : Text → Result (Unit {0})
  pub repo_public_key : Text → Text → Text → Result PublicKey
  pub repo_secret : Text → Text → Text → EncryptedSecret → Result (Unit {0})
  pub registration_token : Text → Text → Text → Result Token
  pub listings : Text → Text → Text → Listings

-- The libraries that seal a secret.
pub record Sealing : Type 0 where
  pub decode_base64 : Text → Result Text
  pub encode_base64 : Text → Text
  pub seal_anonymous : Text → Text → Result Text

pub record GitHubConfig : Type 0 where
  pub app_id : ℤ
  pub installation_id : ℤ
  pub private_key_pem : Text

pub record GitHub : Type 0 where
  pub inst_id : ℤ

-- A step that makes no request.
abbrev pub local : {A : Type 0} → Result A → Run (List GitRequest) A
local r log = (r, log)

unfoldable pub first_installation : List ℤ → Result ℤ
first_installation [] = err (external "github app has no installations")
first_installation (id ∷ ids) = ok id

module _ (api : GitHubApi) where
  found_installation : ℤ → Run (List GitRequest) ℤ
  unfolding first_installation
  found_installation id =
      let ask =
        within "list app installations" (call list_installations api.installations) >>= λ insts.
        local (first_installation insts) in
      if eqb_ℤ id (pos 0) then ask else pure id

  unfoldable pub new_git_hub : GitHubConfig → Run (List GitRequest) GitHub
  unfolding found_installation
  new_git_hub cfg = within "github app client" (local api.app_client) >>= λ u.
      found_installation cfg.installation_id >>= λ id. pure (record { inst_id = id })

  token_request : GitHub → Text → List Permission → Run (List GitRequest) Token
  token_request g repo perms =
      call (create_installation_token g.inst_id (repo ∷ []) perms)
        (api.installation_token g.inst_id (repo ∷ []) perms)

  unfoldable pub mint_workflow_token : GitHub → Text → Text → Run (List GitRequest) Token
  unfolding token_request
  mint_workflow_token g owner repo =
      within "mint workflow token"
        (token_request g repo (contents_write ∷ pull_requests_write ∷ []))

  -- the client, as the token that it sends
  unfoldable pub installation_client : GitHub → Text → List Permission → Run (List GitRequest) Text
  unfolding token_request
  installation_client g repo perms =
      within "mint installation token" (token_request g repo perms) >>= λ tok.
      within "github token client" (local (api.token_client tok.token)) >>= λ u. pure tok.token

  unfoldable pub create_runner_registration_token :
      GitHub → Text → Text → Run (List GitRequest) Token
  unfolding installation_client
  create_runner_registration_token g owner repo =
      installation_client g repo (administration_write ∷ []) >>= λ cli.
      within "create runner registration token"
        (call (create_registration_token owner repo) (api.registration_token cli owner repo))

  unfoldable pub list_app_jobs : GitHub → Text → Text → Run (List GitRequest) (List QueuedJob)
  unfolding installation_client
  list_app_jobs g owner repo = installation_client g repo (actions_read ∷ []) >>= λ cli.
      call (list_runs_and_jobs owner repo)
        (list_queued_self_hosted_jobs (api.listings cli owner repo))

  module _ (seal : Sealing) where
    sealed : Text → Text → Result Text
    sealed pub_key plaintext =
        let out = seal.seal_anonymous plaintext pub_key in
        if length pub_key == 32
        then elim out [ ok s ↦ ok (seal.encode_base64 s) | err e ↦ err e ]
        else err (external "public key is not 32 bytes")

    seal_decoded : Result Text → Text → Result Text
    unfolding sealed
    seal_decoded (err e) plaintext = err e
    seal_decoded (ok pub_key) plaintext = sealed pub_key plaintext

    unfoldable pub seal_secret : Text → Text → Result Text
    unfolding seal_decoded
    seal_secret key plaintext = seal_decoded (seal.decode_base64 key) plaintext

    unfoldable pub put_sealed :
        Text → Text → Text → Text → Text → Text → Run (List GitRequest) (Unit {0})
    put_sealed cli owner repo name key_id sealed_value =
        let secret : EncryptedSecret = record {
          name = name;
          key_id = key_id;
          encrypted_value = sealed_value;
        } in
        within "set secret"
          (call (put_repo_secret owner repo secret) (api.repo_secret cli owner repo secret))

    unfoldable pub seal_and_put :
        Text → Text → Text → Text → Text → PublicKey → Run (List GitRequest) (Unit {0})
    unfolding put_sealed seal_secret
    seal_and_put cli owner repo name value key =
        within "seal secret" (local (seal_secret key.key value))
        >>= put_sealed cli owner repo name key.key_id

    unfoldable pub key_and_put : Text → Text → Text → Text → Text → Run (List GitRequest) (Unit {0})
    unfolding seal_and_put
    key_and_put owner repo name value cli =
        within "get public key"
          (call (get_repo_public_key owner repo) (api.repo_public_key cli owner repo))
        >>= seal_and_put cli owner repo name value

    unfoldable pub set_repo_secret :
        GitHub → Text → Text → Text → Text → Run (List GitRequest) (Unit {0})
    unfolding installation_client key_and_put
    set_repo_secret g owner repo name value =
        within "secrets client" (installation_client g repo (secrets_write ∷ []))
        >>= key_and_put owner repo name value
