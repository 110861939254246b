-- ===== src/Maintenance/Steps.antt =====
-- The activities of the job-scaling sagas: maintenance/internal/nodes/saga.go, with `Target` of
-- maintenance/internal/nodes/nodes.go, and `RunAptlyDBCleanup` of
-- maintenance/aptlycleanup/activities.go. They stand on the models of the Nomad client and of the
-- SSH client.
pub mod Final
use Prim.Native.String.{String}
use nomad_temporal_jobs.Prelude.{
  ℕ, ℤ, pos, Bool, true, false, ◌||◌, List, [], ◌∷◌, ◌++◌, Option, none, some, if◌then◌else◌,
}
use nomad_temporal_jobs.Prelude.Result.{
  Result, Failure, external, non_retryable, wrap, both, ok, err, context, ◌>>=◌,
}
use nomad_temporal_jobs.Prelude.Text.{Text, codes, text_eq}
use nomad_temporal_jobs.Nomad.Alloc.{AllocStub}
use nomad_temporal_jobs.Nomad.Nodes.{Node, NodeInfo, find_job_node, node_info}
use nomad_temporal_jobs.Nomad.Client.{scale_nomad_job}
use nomad_temporal_jobs.Nomad.Wait.{Round, wait_alloc_count}
use nomad_temporal_jobs.Ssh.Host.Credentials.{SshTarget, SshLibrary, SshClient, Dial, connect}
use nomad_temporal_jobs.Ssh.Host.Connection.{Host, client_dir_size}
use nomad_temporal_jobs.Ssh.Container.{Output}

-- `errors.Is(err, ErrNoRunningAlloc)`
unfoldable pub is_no_running_alloc : Failure → Bool
is_no_running_alloc (external text) = text_eq (codes text) (codes "no running allocation for job")
is_no_running_alloc (non_retryable text) = false
is_no_running_alloc (wrap text e) = is_no_running_alloc e
is_no_running_alloc (both d e) = is_no_running_alloc d || is_no_running_alloc e

-- an error that is final where a test says so
unfoldable pub final_if : {A : Type 0} → (Failure → Bool) → String → Result A → Result A
final_if is_final type_name (ok a) = ok a
final_if is_final type_name (err e) = if is_final e then err (non_retryable type_name) else err e

-- `FindJobNode`, by the node queries and the listing of the job's allocations
unfoldable pub find_job_node_step : (Text → Result Node) → Result (List AllocStub) → Result NodeInfo
unfolding final_if is_no_running_alloc
find_job_node_step info listed =
    final_if is_no_running_alloc "NoRunningAlloc" (find_job_node info listed) >>= λ node.
    ok (node_info node)

-- `ScaleJob`, by the answer of Nomad
unfoldable pub scale_job_step :
    (Failure → Bool) → (Text → Text → ℕ → Result (Unit {0})) → Text → Text → ℕ → Result (Unit {0})
unfolding final_if scale_nomad_job
scale_job_step is_job_not_found scale job group count =
    final_if is_job_not_found "JobNotFound" (scale_nomad_job scale job group count)

-- `WaitJobDrained` and `WaitJobRunning`
unfoldable pub wait_job_drained : List Round → Option (Result (Unit {0}))
unfolding wait_alloc_count
wait_job_drained rounds = wait_alloc_count (pos 0) rounds

unfoldable pub wait_job_running : List Round → Option (Result (Unit {0}))
unfolding wait_alloc_count
wait_job_running rounds = wait_alloc_count (pos 1) rounds

unfoldable pub target : NodeInfo → SshTarget
target node = record { host = node.address; user = codes "root"; port = 0; sudo = false }

-- `MeasureDataDir`, by what the files of the worker hold and how dialling ends
unfoldable pub measure_data_dir :
    {Signer PublicKey Certificate : Type 0}
    → SshLibrary Signer PublicKey Certificate
    → (Text → Result Text)
    → (Dial Signer PublicKey → Result (Unit {0}))
    → SshClient PublicKey
    → Host
    → NodeInfo
    → Text
    → Result ℤ
unfolding target connect client_dir_size
measure_data_dir lib read_file dial c h node data_dir =
    context "measure" (client_dir_size h (connect lib read_file dial c (target node)) data_dir).0

-- The container that cleans the database of aptly.
pub record ContainerConfig : Type 0 where
  pub image : Text
  pub entrypoint : List Text
  pub cmd : List Text
  pub binds : List Text

unfoldable pub db_cleanup_container : Text → Text → ContainerConfig
db_cleanup_container image data_dir = record {
  image = image;
  entrypoint = codes "sh" ∷ [];
  cmd =
      codes "-c"
      ∷ codes "printf '{\"rootDir\":\"/opt/aptly\"}' > /etc/aptly.conf && aptly db cleanup"
      ∷ [];
  binds = (data_dir ++ codes ":/opt/aptly") ∷ [];
}

cleanup_output : Output → Output
cleanup_output (out, none) = (out, none)
cleanup_output (out, some e) = (out, some (wrap "aptly db cleanup" e))

-- The output stands beside the error.
unfoldable pub run_aptly_db_cleanup : (ContainerConfig → Output) → Text → Text → Output
unfolding cleanup_output db_cleanup_container
run_aptly_db_cleanup run_container image data_dir =
    cleanup_output (run_container (db_cleanup_container image data_dir))
