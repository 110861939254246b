-- ===== src/Ssh/Host/Connection/Closed.antt =====
-- What a connection leaves open.
use nomad_temporal_jobs.Prelude.{◌≤◌, ◌≡◌, refl, arith, Bool, false, List, [], ◌∷◌, count}
use nomad_temporal_jobs.Prelude.Result.{Result, ok, err}
use nomad_temporal_jobs.Prelude.Text.{Text}
use nomad_temporal_jobs.Prelude.Trace.{bind_keeps}
use nomad_temporal_jobs.Ssh.Host.Shell.{line, du_command}
use nomad_temporal_jobs.Ssh.Host.Connection.{
  HostCall, open_session, open_sftp, close_sftp, close_connection, exec, list_dir, remove_tree,
  Host, SshConn, run, run_in_session, run_with_heartbeat, start_in_session, wait_started, dir_size,
  sftp_client, sftp_opened, read_dir, remove_all, close, dialled, asked, opened,
}
use nomad_temporal_jobs.Ssh.Host.Connection.Owed.{
  is_open_session, is_close_session, is_open_sftp, is_close_sftp, is_close_connection, IsOwed,
  asked-Counted, open-IsOwed, close-IsOwed, exec-IsOwed, list-IsOwed, remove-IsOwed,
}

-- What is asked of a connection between dialling and closing it.
pub data HostOp : Type 0 where
  op_run op_heartbeat op_size op_read op_remove : Text → HostOp

-- whatever was opened is closed, the SFTP session was opened once at most, the connection is
-- closed once
abbrev pub IsClosed : List HostCall → Type 0
IsClosed calls =
    (count is_open_session calls ≡ count is_close_session calls)
    × (count is_open_sftp calls ≡ count is_close_sftp calls)
    × (count is_open_sftp calls ≤ 1)
    × (count is_close_connection calls ≡ 1)

module _ (h : Host) (sudo : Bool) where
  unfoldable pub after_op : HostOp → SshConn → SshConn
  after_op (op_run cmd) s = (run h sudo cmd s).1
  after_op (op_heartbeat cmd) s = (run_with_heartbeat h sudo cmd s).1
  after_op (op_size dir) s = (dir_size h sudo dir s).1
  after_op (op_read dir) s = (read_dir h sudo dir s).1
  after_op (op_remove path) s = (remove_all h sudo path s).1

  unfoldable pub after_ops : List HostOp → SshConn → SshConn
  unfolding after_op
  after_ops [] s = s
  after_ops (op ∷ ops) s = after_ops ops (after_op op s)

  -- a command, by the answer to its session
  run-IsOwed :
      (cmd : Text) (s : SshConn) (r : Result (Unit {0}))
      → IsOwed 0 s
      → IsOwed 0 (run_in_session h sudo cmd r (opened r open_session s)).1
  unfolding run_in_session opened
  run-IsOwed cmd s (ok u) k =
      close-IsOwed 0 (asked (exec (line sudo cmd)) (asked open_session s))
        (exec-IsOwed 1 (line sudo cmd) (asked open_session s) (open-IsOwed 0 s k))
  run-IsOwed cmd s (err e) k = k

  started-IsOwed :
      (cmd : Text) (s : SshConn) (r : Result (Unit {0}))
      → IsOwed 1 s
      → IsOwed 0 (wait_started h sudo cmd r s).1
  unfolding wait_started
  started-IsOwed cmd s (ok u) k =
      close-IsOwed 0 (asked (exec (line sudo cmd)) s) (exec-IsOwed 1 (line sudo cmd) s k)
  started-IsOwed cmd s (err e) k = close-IsOwed 0 s k

  heartbeat-IsOwed :
      (cmd : Text) (s : SshConn) (r : Result (Unit {0}))
      → IsOwed 0 s
      → IsOwed 0 (start_in_session h sudo cmd r (opened r open_session s)).1
  unfolding start_in_session opened
  heartbeat-IsOwed cmd s (ok u) k = started-IsOwed cmd (asked open_session s) _ (open-IsOwed 0 s k)
  heartbeat-IsOwed cmd s (err e) k = k

  sftp_opened-IsOwed :
      (s : SshConn) (r : Result (Unit {0}))
      → s.sftp ≡ false
      → IsOwed 0 s
      → IsOwed 0 (sftp_opened h sudo r s).1
  unfolding sftp_opened
  sftp_opened-IsOwed s (ok u) none_yet k = ground (arith, k, asked-Counted open_sftp s)
  sftp_opened-IsOwed s (err e) none_yet k = k

  sftp_client-IsOwed : (s : SshConn) → IsOwed 0 s → IsOwed 0 (sftp_client h sudo s).1
  unfolding sftp_client
  sftp_client-IsOwed s k = ground (arith, k, sftp_opened-IsOwed s (h.new_sftp s.calls))

  after_op-IsOwed : (op : HostOp) (s : SshConn) → IsOwed 0 s → IsOwed 0 (after_op op s)
  unfolding after_op run run_with_heartbeat dir_size read_dir remove_all
  after_op-IsOwed (op_run cmd) s k = run-IsOwed cmd s (h.new_session s.calls) k
  after_op-IsOwed (op_heartbeat cmd) s k = heartbeat-IsOwed cmd s (h.new_session s.calls) k
  after_op-IsOwed (op_size dir) s k = run-IsOwed (du_command dir) s (h.new_session s.calls) k
  after_op-IsOwed (op_read dir) s k =
      bind_keeps (IsOwed 0) (sftp_client h sudo)
        (λ u s. (h.read_dir s.calls dir, asked (list_dir dir) s)) s (sftp_client-IsOwed s k)
        (λ u e. list-IsOwed 0 dir (sftp_client h sudo s).1 (sftp_client-IsOwed s k))
  after_op-IsOwed (op_remove path) s k =
      bind_keeps (IsOwed 0) (sftp_client h sudo)
        (λ u s. (h.remove_all s.calls path, asked (remove_tree path) s)) s (sftp_client-IsOwed s k)
        (λ u e. remove-IsOwed 0 path (sftp_client h sudo s).1 (sftp_client-IsOwed s k))

  after_ops-IsOwed : (ops : List HostOp) (s : SshConn) → IsOwed 0 s → IsOwed 0 (after_ops ops s)
  unfolding after_ops
  after_ops-IsOwed [] s k = k
  after_ops-IsOwed (op ∷ ops) s k = after_ops-IsOwed ops (after_op op s) (after_op-IsOwed op s k)

  close-IsClosed : (s : SshConn) → IsOwed 0 s → IsClosed (close s).calls
  unfolding close
  close-IsClosed s k = ground (
    arith,
    k,
    asked-Counted close_sftp s,
    asked-Counted close_connection s,
    asked-Counted close_connection (asked close_sftp s),
  )

  -- Whatever is asked of a connection and whatever the host answers: when the connection is closed,
  -- each session of a command has been closed, the SFTP session was opened at most once and is closed
  -- if it was, and the connection is closed once.
  pub close-after_ops-IsClosed :
      (ops : List HostOp) → IsClosed (close (after_ops ops dialled)).calls
  close-after_ops-IsClosed ops =
      close-IsClosed (after_ops ops dialled) (after_ops-IsOwed ops dialled (refl, refl, refl, refl))
