-- ===== src/Examples/Nodes.antt =====
-- The maintenance workflows and the sweeps at concrete inputs.
use nomad_temporal_jobs.Prelude.{
  ℕ, ◌+◌, ◌^◌, ◌<◌, ◌≡◌, ◌↔◌, ◌⊎◌, refl, pos, true, false, List, [], ◌∷◌, length, count, arith,
}
use nomad_temporal_jobs.Prelude.Result.{Result, external, ok, err, is_ok}
use nomad_temporal_jobs.Prelude.Text.{Text, codes, text_eq}
use nomad_temporal_jobs.Maintenance.Bytes.{scale, suffix_at}
use nomad_temporal_jobs.Maintenance.Bytes.Scale.{suffix_bytes, scale-suffix_iff}
use nomad_temporal_jobs.Maintenance.Saga.{NodeInfo, Cluster, scales}
use nomad_temporal_jobs.Maintenance.RegistryGc.{RegistryGcConfig, registry_gc}
use nomad_temporal_jobs.Maintenance.RegistryGc.Restored.{
  collects, registry_gc_restores, registry_gc_strands, registry_gc_drains_first,
}
use nomad_temporal_jobs.Maintenance.RegistryGc.Restored as GcRestored
use nomad_temporal_jobs.Maintenance.NodeCleanup.{
  CleanupConfig, DirEntry, first_sweep, sweep_data_dirs,
}
use nomad_temporal_jobs.Maintenance.NodeCleanup.Exact.{
  is_orphan, is_skipped, orphan_paths, to_remove, sweep_data_dirs_exact,
}
use nomad_temporal_jobs.Ssh.Containerd.{
  PruneResult, no_prune, Daemons, containerd_prune, containerd_store_is_safe,
}
use nomad_temporal_jobs.Ssh.Containerd.Safe.{containerd_prune_safe}

scale-suffix_iff_example :
    (suffix_bytes (suffix_at (scale (1024 ^ 5)).1) ≡ (scale (1024 ^ 5)).0) ↔ (1024 ^ 5 < 1024 ^ 5)
scale-suffix_iff_example = scale-suffix_iff (1024 ^ 5) (omega arith) (omega arith)

abbrev node : NodeInfo
node = record { name = codes "n1"; address = codes "10.0.0.1" }

-- Every activity works but the scalings, which take effect.
abbrev lossy : Cluster
lossy = record {
  node = λ log. ok node;
  image = λ log. ok (codes "img");
  dir_size = λ log. ok (pos 5000);
  scaling = λ log. err (external "timeout");
  applied = λ log. true;
  drained = λ log. ok tt;
  running = λ log. ok tt;
  blobs = λ log. ok 3;
  cleaned = λ log. ok (codes "done");
}

abbrev gc_config : RegistryGcConfig
gc_config = record {
  job_name = [];
  group_name = [];
  registry_data_dir = [];
  registry_image = [];
  dry_run = false;
  delete_untagged = true;
}

registry_gc_restores_example :
    let (r, s) = registry_gc lossy gc_config (GcRestored.start 1) in
    (is_ok r ≡ true → (scales s.world.log ≡ 0 ∷ 1 ∷ []) × (s.world.count ≡ 1))
    × ((scales s.world.log ≡ [])
        ⊎ ((scales s.world.log ≡ 0 ∷ []) × (is_ok r ≡ false))
        ⊎ ((scales s.world.log ≡ 0 ∷ 1 ∷ []) × ((s.world.count ≡ 1) ⊎ (is_ok r ≡ false))))
registry_gc_restores_example = registry_gc_restores lossy gc_config 1

registry_gc_strands_example :
    let s = (registry_gc lossy gc_config (GcRestored.start 1)).1 in
    (s.world.count ≡ 0) × (scales s.world.log ≡ 0 ∷ [])
registry_gc_strands_example =
    registry_gc_strands lossy gc_config 1 node (external "timeout") refl refl refl

abbrev cleanup_config : CleanupConfig
cleanup_config = record {
  data_dir = codes "/opt/nomad/data/";
  grace_days = pos 7;
  concurrency = pos 4;
  dry_run = false;
  docker_prune = false;
  containerd_prune = false;
  rootfs_prune = false;
  buildx_volume_prune = false;
}

abbrev entry : DirEntry
entry = record { name = codes "job-2"; mtime = 0 }

-- 30 days in nanoseconds
abbrev now : ℕ
now = 2_592_000_000_000_000

abbrev remove : Text → Result (Unit {0})
remove path = ok tt

sweep_data_dirs_exact_example :
    let t = sweep_data_dirs remove (entry ∷ []) (codes "web" ∷ []) cleanup_config now first_sweep in
    (t.scanned ≡ 1)
    × (t.orphaned ≡ count (is_orphan remove (codes "web" ∷ []) cleanup_config now) (entry ∷ []))
    × (t.skipped ≡ count (is_skipped remove (codes "web" ∷ []) cleanup_config now) (entry ∷ []))
    × (t.removals ≡ orphan_paths remove (codes "web" ∷ []) cleanup_config now (entry ∷ []))
    × (t.deleted + length t.errors
        ≡ length (to_remove remove (codes "web" ∷ []) cleanup_config now (entry ∷ [])))
sweep_data_dirs_exact_example =
    sweep_data_dirs_exact remove (codes "web" ∷ []) cleanup_config now (entry ∷ [])

abbrev daemons : Daemons
daemons = record {
  storage_driver = ok (codes "overlay2");
  client = ok tt;
  containers = ok (ok (codes "used") ∷ []);
  list_images = ok (codes "used" ∷ codes "stale" ∷ []);
  delete_image = remove;
  size_before = pos 100;
  size_after = pos 60;
}

abbrev overlayfs : Daemons
overlayfs = record daemons { storage_driver = ok (codes "overlayfs") }

abbrev skipped_result : PruneResult
skipped_result = record no_prune { skipped = true; reason = codes "overlayfs" }

skips : containerd_prune overlayfs false ≡ ok (skipped_result, [])
unfolding containerd_prune containerd_store_is_safe text_eq
skips = refl

abbrev no_texts : List Text
no_texts = []

containerd_prune_safe_example :
    ((no_texts ≡ [])
      × ((text_eq (codes "overlayfs") (codes "overlay2") ≡ true) ⊎ (skipped_result.skipped ≡ true)))
    ⊎ ((false ≡ false) × (codes "overlayfs" ≡ codes "overlay2"))
containerd_prune_safe_example =
    containerd_prune_safe overlayfs (codes "overlayfs") false skipped_result [] refl skips
