-- ===== src/Ssh/Host/Connection.antt =====
-- One connection to a host: `sshConn` of shared/client/ssh/ssh.go, its commands and its file
-- operations over the SFTP session that it opens at the first use. What the host answers may depend
-- on everything asked of it before. The second close of a session, when the context ends, is not
-- counted.
mod Owed
pub mod Closed
pub mod Measured
use nomad_temporal_jobs.Prelude.{
  ◌≡◌, refl, arith, ℤ, Bool, true, false, List, [], ◌∷◌, ◌++◌, Option, none, some, if◌then◌else◌,
}
use nomad_temporal_jobs.Prelude.Result.{Result, Failure, wrap, ok, err, context}
use nomad_temporal_jobs.Prelude.Text.{Text}
use nomad_temporal_jobs.Prelude.Trace.{Run, pure, fail, within, ◌>>=◌, ◌>>◌}
use nomad_temporal_jobs.Heartbeat.{Events, with_heartbeat}
use nomad_temporal_jobs.Ssh.Host.Shell.{line, du_command}
use nomad_temporal_jobs.Ssh.Host.Du.{du_total}

pub data HostCall : Type 0 where
  open_session close_session open_sftp close_sftp close_connection : HostCall
  exec : Text → HostCall
  list_dir remove_tree : Text → HostCall

-- What a command printed on its two outputs, and how it ended.
pub record Ran : Type 0 where
  pub stdout : Text
  pub stderr : Text
  pub status : Result (Unit {0})

pub record Host : Type 0 where
  pub new_session : List HostCall → Result (Unit {0})
  pub run_line : List HostCall → Text → Ran
  pub start_line : List HostCall → Text → Result (Unit {0})
  pub wait_line : List HostCall → Text → Events (Unit {0})
  pub output_of : List HostCall → Text → Text
  pub ctx_err : List HostCall → Option Failure
  pub new_sftp : List HostCall → Result (Unit {0})
  pub read_dir : List HostCall → Text → Result (List Text)
  pub remove_all : List HostCall → Text → Result (Unit {0})

-- The connection: whether its SFTP session is there, and what was asked of the host.
pub record SshConn : Type 0 where
  pub sftp : Bool
  pub calls : List HostCall

unfoldable pub asked : HostCall → SshConn → SshConn
asked c s = record s { calls = s.calls ++ (c ∷ []) }

-- an opening, counted where it worked
unfoldable pub opened : Result (Unit {0}) → HostCall → SshConn → SshConn
unfolding asked
opened (ok u) c s = asked c s
opened (err e) c s = s

-- the error of a command: that of the context where it has ended
command_error : Option Failure → Failure → Failure
command_error none e = wrap "ssh run" e
command_error (some c) e = c

unfoldable pub command_result : Text → Result (Unit {0}) → Option Failure → Text × Option Failure
unfolding command_error
command_result out (ok u) ctx = (out, none)
command_result out (err e) ctx = (out, some (command_error ctx e))

module _ (h : Host) (sudo : Bool) where
  -- A command with the session that was opened for it, which is closed behind it.
  unfoldable pub run_in_session :
      Text → Result (Unit {0}) → SshConn → (Text × Option Failure) × SshConn
  unfolding command_result asked
  run_in_session cmd (err e) s = (([], some (wrap "ssh session" e)), s)
  run_in_session cmd (ok u) s =
      let ran = h.run_line s.calls (line sudo cmd) in
      let s' = asked (exec (line sudo cmd)) s in
      (command_result ran.stdout ran.status (h.ctx_err s'.calls), asked close_session s')

  -- The output stands beside the error.
  unfoldable pub run : Text → SshConn → (Text × Option Failure) × SshConn
  unfolding run_in_session opened
  run cmd s = let r = h.new_session s.calls in run_in_session cmd r (opened r open_session s)

  unfoldable pub wait_started :
      Text → Result (Unit {0}) → SshConn → (Text × Option Failure) × SshConn
  unfolding command_result asked
  wait_started cmd (err e) s = (([], some (wrap "ssh start" e)), asked close_session s)
  wait_started cmd (ok u) s =
      let s' = asked (exec (line sudo cmd)) s in
      let (r, beats) = with_heartbeat (h.wait_line s.calls (line sudo cmd)) in
      (command_result (h.output_of s'.calls cmd) r (h.ctx_err s'.calls), asked close_session s')

  unfoldable pub start_in_session :
      Text → Result (Unit {0}) → SshConn → (Text × Option Failure) × SshConn
  unfolding wait_started
  start_in_session cmd (err e) s = (([], some (wrap "ssh session" e)), s)
  start_in_session cmd (ok u) s = wait_started cmd (h.start_line s.calls (line sudo cmd)) s

  unfoldable pub run_with_heartbeat : Text → SshConn → (Text × Option Failure) × SshConn
  unfolding start_in_session opened
  run_with_heartbeat cmd s =
      let r = h.new_session s.calls in start_in_session cmd r (opened r open_session s)

  unfoldable pub dir_size : Text → SshConn → Result ℤ × SshConn
  unfolding run
  dir_size dir s =
      let ((out, e), s') = run (du_command dir) s in (du_total out e (h.ctx_err s'.calls), s')

  -- The SFTP session is opened once.
  unfoldable pub sftp_opened : Result (Unit {0}) → Run SshConn (Unit {0})
  unfolding asked
  sftp_opened (ok u) s = (ok u, record (asked open_sftp s) { sftp = true })
  sftp_opened (err e) s = (err (wrap "open sftp" e), s)

  unfoldable pub sftp_client : Run SshConn (Unit {0})
  unfolding sftp_opened
  sftp_client s = if s.sftp then (ok tt, s) else sftp_opened (h.new_sftp s.calls) s

  unfoldable pub read_dir : Text → Run SshConn (List Text)
  unfolding sftp_client asked
  read_dir dir = sftp_client >>= λ u. λ s. (h.read_dir s.calls dir, asked (list_dir dir) s)

  unfoldable pub remove_all : Text → Run SshConn (Unit {0})
  unfolding sftp_client asked
  remove_all path =
      sftp_client >>= λ u. λ s. (h.remove_all s.calls path, asked (remove_tree path) s)

unfoldable pub close : SshConn → SshConn
unfolding asked
close s = asked close_connection (if s.sftp then asked close_sftp s else s)

-- a connection that was just dialled
abbrev pub dialled : SshConn
dialled = record { sftp = false; calls = [] }

-- The one-shot operations of the client, on a connection of their own.
module _ (h : Host) where
  unfoldable pub client_run : Result Bool → Text → (Text × Option Failure) × List HostCall
  unfolding run close
  client_run (err e) cmd = (([], some e), [])
  client_run (ok sudo) cmd = let (r, s) = run h sudo cmd dialled in (r, (close s).calls)

  unfoldable pub client_run_with_heartbeat :
      Result Bool → Text → (Text × Option Failure) × List HostCall
  unfolding run_with_heartbeat close
  client_run_with_heartbeat (err e) cmd = (([], some e), [])
  client_run_with_heartbeat (ok sudo) cmd =
      let (r, s) = run_with_heartbeat h sudo cmd dialled in (r, (close s).calls)

  unfoldable pub client_dir_size : Result Bool → Text → Result ℤ × List HostCall
  unfolding dir_size close
  client_dir_size (err e) dir = (err e, [])
  client_dir_size (ok sudo) dir = let (r, s) = dir_size h sudo dir dialled in (r, (close s).calls)
