-- ===== src/Maintenance/NodeCleanup/Node.antt =====
-- One node: `CleanupNodeViaSSH` of maintenance/nodecleanup/activities.go with its four optional
-- steps. Beside the result stands what was asked to go on the node. The answers of Nomad, of the SSH
-- connection and of the daemons are parameters; the report keeps its fragments as values.
pub mod Run
pub mod Dry
pub mod Fleet
pub mod Spared
use nomad_temporal_jobs.Prelude.{
  ℕ, ◌-◌, ◌^◌, ltb, ℤ, pos, negsuc, sub_ℕ, Bool, true, false, List, [], ◌∷◌, ◌++◌, map, keep,
  Option, none, some, if◌then◌else◌,
}
use nomad_temporal_jobs.Prelude.Result.{Result, Failure, external, ok, err, context, ◌>>=◌}
use nomad_temporal_jobs.Prelude.Text.{Text, codes}
use nomad_temporal_jobs.Ssh.Docker.{PruneStep, SystemPrune, Docker, docker_system_prune}
use nomad_temporal_jobs.Ssh.Containerd.{PruneResult, Daemons, containerd_prune}
use nomad_temporal_jobs.Ssh.Reclaim.{ReclaimResult, Host, rootfs_prune, buildx_volume_prune}
use nomad_temporal_jobs.Maintenance.Bytes.{Shown, human_bytes}
use nomad_temporal_jobs.Maintenance.NodeCleanup.{
  CleanupConfig, DirEntry, Line, Sweep, first_sweep, sweep_data_dirs,
}

-- `int64(n)` of a uint64
unfoldable pub to_i64 : ℕ → ℤ
to_i64 n = if ltb n (2 ^ 63) then pos n else sub_ℕ n (2 ^ 64)

-- The text "0B" stands where a step freed nothing or did not run.
pub data Space : Type 0 where
  zero_b : Space
  freed : Shown → Space

-- The fragments of the report.
pub data Note : Type 0 where
  dirs : List Line → Note
  docker_skipped : Note
  docker_failed : Failure → Note
  docker_done : List PruneStep → Space → Note
  containerd_failed : Failure → Note
  containerd_skipped : Text → Note
  containerd_dry : List Text → ℕ → Note
  containerd_done : List Text → ℕ → Space → Note
  reclaim_failed : Failure → Note
  reclaim_dry : List Text → ℕ → Space → Note
  reclaim_done : List Text → ℕ → Space → Note

pub record CleanupResult : Type 0 where
  pub node_name : Text
  pub scanned : ℕ
  pub orphaned : ℕ
  pub deleted : ℕ
  pub skipped : ℕ
  pub docker_space_freed : Space
  pub containerd_space_freed : Space
  pub containerd_is_skipped : Bool
  pub containerd_skip_reason : Text
  pub rootfs_space_freed : Space
  pub buildx_space_freed : Space
  pub errors : List Text
  pub output : List Note

-- What the node was asked to remove.
pub record Asked : Type 0 where
  pub dirs : List Text
  pub system_prunes : ℕ
  pub images : List Text
  pub rootfs : List Text
  pub volumes : List Text

-- An entry of a directory, as SFTP lists it.
pub record RemoteInfo : Type 0 where
  pub name : Text
  pub is_dir : Bool
  pub mtime : ℕ

-- How the waits for the pruning steps end (`WithHeartbeat` of shared/heartbeat.go): with the answer of
-- the step, or with the error of the context that ends first, for each step.
pub record Cancels : Type 0 where
  pub docker : Option Failure
  pub containerd : Option Failure
  pub rootfs : Option Failure
  pub buildx : Option Failure

pub record Conn : Type 0 where
  pub read_dir : Text → Result (List RemoteInfo)
  pub remove_all : Text → Result (Unit {0})
  pub docker : Docker
  pub daemons : Daemons
  pub host : Host
  pub cancels : Cancels

unfoldable pub list_data_dirs : Conn → Text → Result (List DirEntry)
list_data_dirs conn data_dir = context "list data dirs" (conn.read_dir data_dir) >>= λ infos. ok (
    map (λ (fi : RemoteInfo). record { name = fi.name; mtime = fi.mtime })
      (keep (λ (fi : RemoteInfo). fi.is_dir) infos))

-- The wait for a step. A step that is not waited for runs on: what it asks the node to remove counts
-- as asked.
unfoldable pub waited : {A : Type 0} → Option Failure → Result A → Result A
waited none r = r
waited (some e) r = err e

asked_of : {A : Type 0} → Result (A × List Text) → List Text
asked_of (err e) = []
asked_of (ok (r, asked)) = asked

unfoldable pub docker_report : Result SystemPrune → Space × Note
docker_report (err e) = (zero_b, docker_failed e)
docker_report (ok r) =
    let space = freed (human_bytes (to_i64 r.reclaimed)) in (space, docker_done r.warnings space)

-- the space, the note, and how many system prunes were asked for
unfoldable pub docker_prune : Conn → Bool → (Space × Note) × ℕ
unfolding docker_report waited
docker_prune conn true = ((zero_b, docker_skipped), 0)
docker_prune conn false =
    (docker_report (waited conn.cancels.docker (docker_system_prune conn.docker)), 1)

unfoldable pub containerd_report :
    Bool → Result (PruneResult × List Text) → Space × Bool × Text × Note
containerd_report dry_run (err e) = (zero_b, false, [], containerd_failed e)
containerd_report dry_run (ok (r, asked)) =
    let space = freed (human_bytes (to_i64 r.reclaimed)) in
    if r.skipped
    then (zero_b, true, r.reason, containerd_skipped r.reason)
    else if dry_run
    then (zero_b, false, [], containerd_dry r.warnings r.candidates)
    else (space, false, [], containerd_done r.warnings r.deleted space)

unfoldable pub prune_containerd : Conn → Bool → (Space × Bool × Text × Note) × List Text
unfolding containerd_report waited asked_of
prune_containerd conn dry_run =
    let q = containerd_prune conn.daemons dry_run in
    (containerd_report dry_run (waited conn.cancels.containerd q), asked_of q)

unfoldable pub reclaim_report : Bool → Result (ReclaimResult × List Text) → Space × Note
reclaim_report dry_run (err e) = (zero_b, reclaim_failed e)
reclaim_report true (ok (r, asked)) =
    (zero_b, reclaim_dry r.warnings r.candidates (freed (human_bytes (to_i64 r.reclaimable))))
reclaim_report false (ok (r, asked)) =
    let space = freed (human_bytes (to_i64 r.reclaimed)) in
    (space, reclaim_done r.warnings r.deleted space)

-- A sweep, by how the wait for it ends.
unfoldable pub reclaim_step :
    Option Failure → Bool → Result (ReclaimResult × List Text) → (Space × Note) × List Text
unfolding reclaim_report waited asked_of
reclaim_step cancelled dry_run q = (reclaim_report dry_run (waited cancelled q), asked_of q)
