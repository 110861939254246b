-- ===== src/Ssh/Container.antt =====
-- A container for one command on a node: `RunContainer` of shared/client/ssh/docker.go. The daemon is
-- a record of its answers, each by what was asked of it before; the calls stand in order.
pub mod Removed
use nomad_temporal_jobs.Prelude.{
  ℕ, ℤ, pos, eqb_ℤ, Bool, true, false, List, [], ◌∷◌, ◌++◌, Option, none, some, if◌then◌else◌,
}
use nomad_temporal_jobs.Prelude.Result.{Result, Failure, external, wrap, ok, err}
use nomad_temporal_jobs.Prelude.Text.{Text}
use nomad_temporal_jobs.Heartbeat.{Events, with_heartbeat}

pub data DaemonCall : Type 0 where
  connect_host new_client create_container : DaemonCall
  start_container wait_container read_logs force_remove : Text → DaemonCall
  close_logs close_client close_host : DaemonCall

-- Reading the logs gives what was read, beside the error that ended it.
pub record Daemon : Type 0 where
  pub connect : List DaemonCall → Result (Unit {0})
  pub client : List DaemonCall → Result (Unit {0})
  pub create : List DaemonCall → Result Text
  pub start : List DaemonCall → Text → Result (Unit {0})
  pub wait : List DaemonCall → Text → Events ℤ
  pub logs : List DaemonCall → Text → Result (Text × Option Failure)

-- What RunContainer returns: an output and an error.
abbrev pub Output : Type 0
Output = Text × Option Failure

abbrev log_call : List DaemonCall → DaemonCall → List DaemonCall
log_call calls c = calls ++ (c ∷ [])

unfoldable pub exit_result : Text → ℤ → Output
exit_result output status =
    (output, if eqb_ℤ status (pos 0) then none else some (external "container exited"))

unfoldable pub demuxed : Text → Option Failure → ℤ → Output
unfolding exit_result
demuxed output (some e) status = (output, some (wrap "demux container logs" e))
demuxed output none status = exit_result output status

-- The logs are closed behind the reading.
unfoldable pub after_logs :
    Result (Text × Option Failure) → ℤ → List DaemonCall → Output × List DaemonCall
unfolding demuxed
after_logs (err e) status calls = (([], some (wrap "read container logs" e)), calls)
after_logs (ok (output, e)) status calls = (demuxed output e status, log_call calls close_logs)

module _ (d : Daemon) where
  unfoldable pub after_wait : Text → Result ℤ → List DaemonCall → Output × List DaemonCall
  unfolding after_logs
  after_wait id (err e) calls = (([], some (wrap "wait for container" e)), calls)
  after_wait id (ok status) calls =
      after_logs (d.logs calls id) status (log_call calls (read_logs id))

  unfoldable pub after_start : Text → Result (Unit {0}) → List DaemonCall → Output × List DaemonCall
  unfolding after_wait
  after_start id (err e) calls = (([], some (wrap "start container" e)), calls)
  after_start id (ok u) calls =
      let (status, beats) = with_heartbeat (d.wait calls id) in
      after_wait id status (log_call calls (wait_container id))

  -- Behind the creation: whatever happens, the container is removed.
  unfoldable pub after_create : Result Text → List DaemonCall → Output × List DaemonCall
  unfolding after_start
  after_create (err e) calls = (([], some (wrap "create container" e)), calls)
  after_create (ok id) calls =
      let (out, calls') = after_start id (d.start calls id) (log_call calls (start_container id)) in
      (out, log_call calls' (force_remove id))

  unfoldable pub after_client : Result (Unit {0}) → List DaemonCall → Output × List DaemonCall
  unfolding after_create
  after_client (err e) calls = (([], some (wrap "create docker client" e)), calls)
  after_client (ok u) calls =
      let (out, calls') = after_create (d.create calls) (log_call calls create_container) in
      (out, log_call calls' close_client)

  unfoldable pub after_connect : Result (Unit {0}) → List DaemonCall → Output × List DaemonCall
  unfolding after_client
  after_connect (err e) calls = (([], some e), calls)
  after_connect (ok u) calls =
      let (out, calls') = after_client (d.client calls) (log_call calls new_client) in
      (out, log_call calls' close_host)

  unfoldable pub run_container : Output × List DaemonCall
  unfolding after_connect
  run_container = after_connect (d.connect []) (connect_host ∷ [])
