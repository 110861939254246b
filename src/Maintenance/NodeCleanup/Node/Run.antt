-- ===== src/Maintenance/NodeCleanup/Node/Run.antt =====
-- The steps of `CleanupNodeViaSSH` of maintenance/nodecleanup/activities.go, in their order.
use nomad_temporal_jobs.Prelude.{ℕ, Bool, false, List, [], ◌∷◌, ◌++◌, if◌then◌else◌}
use nomad_temporal_jobs.Prelude.Result.{Result, Failure, ok, err}
use nomad_temporal_jobs.Prelude.Text.{Text, codes}
use nomad_temporal_jobs.Ssh.Reclaim.{rootfs_prune, buildx_volume_prune}
use nomad_temporal_jobs.Maintenance.NodeCleanup.{
  CleanupConfig, DirEntry, Sweep, first_sweep, sweep_data_dirs,
}
use nomad_temporal_jobs.Maintenance.NodeCleanup.Node.{
  Space, zero_b, Note, dirs, CleanupResult, Asked, Conn, list_data_dirs, docker_prune,
  prune_containerd, reclaim_step,
}

abbrev pub no_result : Text → CleanupResult
no_result name = record {
  node_name = name;
  scanned = 0;
  orphaned = 0;
  deleted = 0;
  skipped = 0;
  docker_space_freed = zero_b;
  containerd_space_freed = zero_b;
  containerd_is_skipped = false;
  containerd_skip_reason = [];
  rootfs_space_freed = zero_b;
  buildx_space_freed = zero_b;
  errors = [];
  output = [];
}

abbrev pub nothing_asked : Asked
nothing_asked = record { dirs = []; system_prunes = 0; images = []; rootfs = []; volumes = [] }

abbrev pub State : Type 0
State = CleanupResult × Asked

unfoldable pub scan_step : Sweep → State → State
scan_step s (r, a) = (
  record r {
    scanned = s.scanned;
    orphaned = s.orphaned;
    deleted = s.deleted;
    skipped = s.skipped;
    errors = s.errors;
    output = r.output ++ (dirs s.lines ∷ []);
  },
  record a { dirs = s.removals },
)

unfoldable pub docker_ran : (Space × Note) × ℕ → State → State
docker_ran ((space, note), n) (r, a) = (
  record r { docker_space_freed = space; output = r.output ++ (note ∷ []) },
  record a { system_prunes = n },
)

unfoldable pub containerd_ran : (Space × Bool × Text × Note) × List Text → State → State
containerd_ran ((space, skipped, reason, note), asked) (r, a) = (
  record r {
    containerd_space_freed = space;
    containerd_is_skipped = skipped;
    containerd_skip_reason = reason;
    output = r.output ++ (note ∷ []);
  },
  record a { images = asked },
)

unfoldable pub rootfs_ran : (Space × Note) × List Text → State → State
rootfs_ran ((space, note), asked) (r, a) = (
  record r { rootfs_space_freed = space; output = r.output ++ (note ∷ []) },
  record a { rootfs = asked },
)

unfoldable pub buildx_ran : (Space × Note) × List Text → State → State
buildx_ran ((space, note), asked) (r, a) = (
  record r { buildx_space_freed = space; output = r.output ++ (note ∷ []) },
  record a { volumes = asked },
)

-- the steps behind the scan
unfoldable pub optional_steps : Conn → CleanupConfig → State → State
unfolding docker_prune prune_containerd docker_ran containerd_ran rootfs_ran buildx_ran
optional_steps conn cfg s =
    let s1 = if cfg.docker_prune then docker_ran (docker_prune conn cfg.dry_run) s else s in
    let s2 =
      if cfg.containerd_prune then containerd_ran (prune_containerd conn cfg.dry_run) s1 else s1 in
    let s3 =
      if cfg.rootfs_prune
      then rootfs_ran
          (reclaim_step conn.cancels.rootfs cfg.dry_run (rootfs_prune conn.host cfg.dry_run)) s2
      else s2 in
    if cfg.buildx_volume_prune
    then buildx_ran
        (reclaim_step conn.cancels.buildx cfg.dry_run (buildx_volume_prune conn.host cfg.dry_run))
        s3
    else s3

-- An error of Nomad, of the connection or of the listing ends the activity; its text is kept as one
-- phrase for each.
abbrev stopped : Text → Text → Failure → Result (Unit {0}) × State
stopped name text e = (err e, (record (no_result name) { errors = text ∷ [] }, nothing_asked))

unfoldable pub listed :
    Conn → Text → List Text → CleanupConfig → ℕ → Result (List DirEntry) → Result (Unit {0}) × State
unfolding scan_step optional_steps
listed conn name running cfg now (err e) = stopped name (codes "list data dirs") e
listed conn name running cfg now (ok entries) =
    let s = sweep_data_dirs conn.remove_all entries running cfg now first_sweep in
    (ok tt, optional_steps conn cfg (scan_step s (no_result name, nothing_asked)))

unfoldable pub connected :
    Text → List Text → CleanupConfig → ℕ → Result Conn → Result (Unit {0}) × State
unfolding listed list_data_dirs
connected name running cfg now (err e) = stopped name (codes "ssh connect") e
connected name running cfg now (ok conn) =
    listed conn name running cfg now (list_data_dirs conn cfg.data_dir)

unfoldable pub after_running :
    Text → CleanupConfig → ℕ → Result Conn → Result (List Text) → Result (Unit {0}) × State
unfolding connected
after_running name cfg now conn (err e) = stopped name (codes "running jobs") e
after_running name cfg now conn (ok running) = connected name running cfg now conn

-- The running jobs are those of the node (`running_job_ids` of Nomad/Alloc).
unfoldable pub cleanup_node_via_ssh :
    Text → CleanupConfig → ℕ → Result (List Text) → Result Conn → Result (Unit {0}) × State
unfolding after_running
cleanup_node_via_ssh name cfg now running conn = after_running name cfg now conn running
