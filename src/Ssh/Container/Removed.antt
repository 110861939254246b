-- ===== src/Ssh/Container/Removed.antt =====
-- A container that was created does not stay.
use nomad_temporal_jobs.Prelude.{
  ◌≡◌, refl, sym, ◌∙◌, ℤ, Bool, true, false, All, List, [], ◌∷◌, ◌++◌, append-nil, append_assoc,
  Option,
}
use nomad_temporal_jobs.Prelude.Result.{Result, Failure, ok, err}
use nomad_temporal_jobs.Prelude.Text.{Text}
use nomad_temporal_jobs.Heartbeat.{with_heartbeat}
use nomad_temporal_jobs.Ssh.Container.{
  DaemonCall, connect_host, new_client, create_container, start_container, wait_container,
  read_logs, force_remove, close_logs, close_client, close_host, Daemon, after_logs, after_wait,
  after_start, after_create, after_client, after_connect, run_container,
}

abbrev pub is_removal : DaemonCall → Bool
is_removal (force_remove id) = true
is_removal _ = false

-- calls that went on without a removal
abbrev pub WentOn : List DaemonCall → List DaemonCall → Type 0
WentOn calls calls' =
    (mid : List DaemonCall) × (calls' ≡ calls ++ mid) × All (λ c. is_removal c ≡ false) mid

after_logs-WentOn :
    (r : Result (Text × Option Failure)) (status : ℤ) (calls : List DaemonCall)
    → WentOn calls (after_logs r status calls).1
unfolding after_logs
after_logs-WentOn (err e) status calls = ([], sym (append-nil calls), tt)
after_logs-WentOn (ok (output, e)) status calls = (close_logs ∷ [], refl, (refl, tt))

module _ (d : Daemon) where
  after_wait-WentOn :
      (id : Text) (r : Result ℤ) (calls : List DaemonCall)
      → WentOn calls (after_wait d id r calls).1
  unfolding after_wait
  after_wait-WentOn id (err e) calls = ([], sym (append-nil calls), tt)
  after_wait-WentOn id (ok status) calls =
      let (mid, same, keeps) =
        after_logs-WentOn (d.logs calls id) status (calls ++ (read_logs id ∷ [])) in
      (read_logs id ∷ mid, same ∙ append_assoc calls (read_logs id ∷ []) mid, (refl, keeps))

  after_start-WentOn :
      (id : Text) (r : Result (Unit {0})) (calls : List DaemonCall)
      → WentOn calls (after_start d id r calls).1
  unfolding after_start
  after_start-WentOn id (err e) calls = ([], sym (append-nil calls), tt)
  after_start-WentOn id (ok u) calls =
      let (mid, same, keeps) =
        after_wait-WentOn id (with_heartbeat (d.wait calls id)).0
          (calls ++ (wait_container id ∷ [])) in
      (
        wait_container id ∷ mid,
        same ∙ append_assoc calls (wait_container id ∷ []) mid,
        (refl, keeps),
      )

  -- Where a container was created, it is asked to start, and whatever fails behind that, it is removed
  -- exactly once, before the client and the connection are closed, which ends the run.
  pub run_container-removed :
      (id : Text)
      → d.connect [] ≡ ok tt
      → d.client (connect_host ∷ []) ≡ ok tt
      → d.create (connect_host ∷ new_client ∷ []) ≡ ok id
      → (mid : List DaemonCall) × ((run_container d).1
          ≡ (connect_host ∷ new_client ∷ create_container ∷ start_container id ∷ [])
            ++ (mid ++ (force_remove id ∷ close_client ∷ close_host ∷ [])))
        × All (λ c. is_removal c ≡ false) mid
  unfolding run_container after_connect after_client after_create
  run_container-removed id connected client created =
      let calls = connect_host ∷ new_client ∷ create_container ∷ [] in
      let (mid, same, keeps) =
        after_start-WentOn id (d.start calls id) (calls ++ (start_container id ∷ [])) in
      (
        mid,
        rw (
          connected,
          client,
          created,
          same,
          append_assoc mid (force_remove id ∷ []) (close_client ∷ []),
          append_assoc mid (force_remove id ∷ close_client ∷ []) (close_host ∷ []),
        ),
        keeps,
      )
