-- ===== src/Git/App/Scoped.antt =====
-- What the tokens of the App may do.
use nomad_temporal_jobs.Prelude.{◌≡◌, refl, sym, subst, arith, All, List, [], ◌∷◌, ◌++◌}
use nomad_temporal_jobs.Prelude.Text.{Text}
use nomad_temporal_jobs.Prelude.Trace.{within, call, bind_keeps}
use nomad_temporal_jobs.Runner.Queue.{list_queued_self_hosted_jobs}
use nomad_temporal_jobs.Git.App.{
  Permission, contents_write, pull_requests_write, secrets_write, administration_write,
  actions_read, list_runs_and_jobs, list_app_jobs, GitRequest, list_installations,
  create_installation_token, get_repo_public_key, put_repo_secret, create_registration_token,
  GitHubApi, Sealing, GitHub, local, mint_workflow_token, installation_client,
  create_runner_registration_token, PublicKey, seal_secret, put_sealed, seal_and_put, key_and_put,
  set_repo_secret,
}

-- A request that makes a token asks for this repository alone and these permissions alone, a request
-- with a token is about this repository of the owner.
abbrev pub IsScoped : GitHub → Text → Text → List Permission → GitRequest → Type 0
IsScoped g owner repo perms list_installations = ⊥
IsScoped g owner repo perms (create_installation_token id repos ps) =
    (id ≡ g.inst_id) × (repos ≡ repo ∷ []) × (ps ≡ perms)
IsScoped g owner repo perms (get_repo_public_key o r) = (o ≡ owner) × (r ≡ repo)
IsScoped g owner repo perms (put_repo_secret o r secret) = (o ≡ owner) × (r ≡ repo)
IsScoped g owner repo perms (create_registration_token o r) = (o ≡ owner) × (r ≡ repo)
IsScoped g owner repo perms (list_runs_and_jobs o r) = (o ≡ owner) × (r ≡ repo)

module _ (api : GitHubApi) (g : GitHub) (owner repo : Text) where
  more-IsScoped :
      (perms : List Permission) (log : List GitRequest) (q : GitRequest)
      → All (IsScoped g owner repo perms) log
      → IsScoped g owner repo perms q
      → All (IsScoped g owner repo perms) (log ++ (q ∷ []))
  more-IsScoped perms [] q h k = (k, tt)
  more-IsScoped perms (r ∷ log) q h k = (h.0, more-IsScoped perms log q h.1 k)

  installation_client_log :
      (perms : List Permission) (log : List GitRequest)
      → (installation_client api g repo perms log).1
        ≡ log ++ (create_installation_token g.inst_id (repo ∷ []) perms ∷ [])
  unfolding installation_client
  installation_client_log perms log = ground arith

  client-IsScoped :
      (perms : List Permission)
      → All (IsScoped g owner repo perms) (installation_client api g repo perms []).1
  client-IsScoped perms =
      subst (All (IsScoped g owner repo perms)) (sym (installation_client_log perms []))
        ((refl, refl, refl), tt)

  mint_workflow_token-IsScoped :
      All
        (IsScoped g owner repo (contents_write ∷ pull_requests_write ∷ []))
        (mint_workflow_token api g owner repo []).1
  unfolding mint_workflow_token
  mint_workflow_token-IsScoped = ((refl, refl, refl), tt)

  registration-IsScoped :
      All
        (IsScoped g owner repo (administration_write ∷ []))
        (create_runner_registration_token api g owner repo []).1
  unfolding create_runner_registration_token
  registration-IsScoped =
      let perms = administration_write ∷ [] in
      bind_keeps (All (IsScoped g owner repo perms)) (installation_client api g repo perms)
        (λ cli.
          within "create runner registration token"
            (call (create_registration_token owner repo) (api.registration_token cli owner repo)))
        [] (client-IsScoped perms)
        (λ cli e.
          more-IsScoped perms _ (create_registration_token owner repo) (client-IsScoped perms)
            (refl, refl))

  list_app_jobs-IsScoped :
      All (IsScoped g owner repo (actions_read ∷ [])) (list_app_jobs api g owner repo []).1
  unfolding list_app_jobs
  list_app_jobs-IsScoped =
      let perms = actions_read ∷ [] in
      bind_keeps (All (IsScoped g owner repo perms)) (installation_client api g repo perms)
        (λ cli.
          call (list_runs_and_jobs owner repo)
            (list_queued_self_hosted_jobs (api.listings cli owner repo)))
        [] (client-IsScoped perms)
        (λ cli e.
          more-IsScoped perms _ (list_runs_and_jobs owner repo) (client-IsScoped perms)
            (refl, refl))

  put_sealed-IsScoped :
      (seal : Sealing) (perms : List Permission) (cli name key_id value : Text)
      (log : List GitRequest)
      → All (IsScoped g owner repo perms) log
      → All
          (IsScoped g owner repo perms)
          (put_sealed api seal cli owner repo name key_id value log).1
  unfolding put_sealed
  put_sealed-IsScoped seal perms cli name key_id value log h =
      more-IsScoped perms log
        (put_repo_secret owner repo
          (record { name = name; key_id = key_id; encrypted_value = value }))
        h (refl, refl)

  seal_and_put-IsScoped :
      (seal : Sealing) (perms : List Permission) (cli name value : Text) (key : PublicKey)
      (log : List GitRequest)
      → All (IsScoped g owner repo perms) log
      → All
          (IsScoped g owner repo perms)
          (seal_and_put api seal cli owner repo name value key log).1
  unfolding seal_and_put
  seal_and_put-IsScoped seal perms cli name value key log h =
      bind_keeps (All (IsScoped g owner repo perms))
        (within "seal secret" (local (seal_secret api seal key.key value)))
        (put_sealed api seal cli owner repo name key.key_id) log h
        (λ v e. put_sealed-IsScoped seal perms cli name key.key_id v log h)

  key_and_put-IsScoped :
      (seal : Sealing) (perms : List Permission) (name value cli : Text) (log : List GitRequest)
      → All (IsScoped g owner repo perms) log
      → All (IsScoped g owner repo perms) (key_and_put api seal owner repo name value cli log).1
  unfolding key_and_put
  key_and_put-IsScoped seal perms name value cli log h =
      let h' = more-IsScoped perms log (get_repo_public_key owner repo) h (refl, refl) in
      bind_keeps (All (IsScoped g owner repo perms))
        (within "get public key"
          (call (get_repo_public_key owner repo) (api.repo_public_key cli owner repo)))
        (seal_and_put api seal cli owner repo name value) log h'
        (λ key e.
          seal_and_put-IsScoped seal perms cli name value key
            (log ++ (get_repo_public_key owner repo ∷ [])) h')

  -- A token that the App makes to start a workflow, to register a runner, to set a secret or to list
  -- the queued jobs is asked for that repository alone, with write permission to contents and pull
  -- requests, to the administration, to the secrets, and with read permission to the actions, and for
  -- nothing else, and what is then asked with it is about that repository of the owner, however the
  -- requests end.
  pub app_tokens-IsScoped :
      (seal : Sealing) (name value : Text)
      → All
          (IsScoped g owner repo (contents_write ∷ pull_requests_write ∷ []))
          (mint_workflow_token api g owner repo []).1
        × All
            (IsScoped g owner repo (administration_write ∷ []))
            (create_runner_registration_token api g owner repo []).1
        × All
            (IsScoped g owner repo (secrets_write ∷ []))
            (set_repo_secret api seal g owner repo name value []).1
        × All (IsScoped g owner repo (actions_read ∷ [])) (list_app_jobs api g owner repo []).1
  unfolding set_repo_secret
  app_tokens-IsScoped seal name value = (
    mint_workflow_token-IsScoped,
    registration-IsScoped,
    let perms = secrets_write ∷ [] in
        bind_keeps (All (IsScoped g owner repo perms))
          (within "secrets client" (installation_client api g repo perms))
          (key_and_put api seal owner repo name value) [] (client-IsScoped perms)
          (λ cli e. key_and_put-IsScoped seal perms name value cli _ (client-IsScoped perms)),
    list_app_jobs-IsScoped,
  )
