-- ===== src/Maintenance/RegistryGc.antt =====
-- The registry garbage-collection saga: `RegistryGC` of maintenance/registrygc/workflow.go, with the
-- configuration of maintenance/registrygc/activities.go.
pub mod Restored
pub mod Collect
use nomad_temporal_jobs.Prelude.{ℕ, Bool, false, List, [], ◌∷◌, ◌++◌, if◌then◌else◌}
use nomad_temporal_jobs.Prelude.Result.{Result, ok, err}
use nomad_temporal_jobs.Prelude.Trace.{Run, pure, within, deferred, ◌>>=◌, ◌>>◌}
use nomad_temporal_jobs.Prelude.Text.{Text, codes, is_empty}
use nomad_temporal_jobs.Maintenance.Bytes.{Size, Entry, unknown, size_report}
use nomad_temporal_jobs.Maintenance.Saga.{
  NodeInfo, Activity, find_job_node, wait_drained, garbage_collect, World, Cluster, act,
  measure_best_effort, scale_to, compensate, Saga, lift, set_result,
}

pub record RegistryGcConfig : Type 0 where
  pub job_name : Text
  pub group_name : Text
  pub registry_data_dir : Text
  pub registry_image : Text
  pub dry_run : Bool
  pub delete_untagged : Bool

abbrev default_to : Text → Text → Text
default_to d t = if is_empty t then d else t

-- `ApplyDefaults`: the group defaults to the job's name, once that has its own default.
unfoldable pub apply_defaults : RegistryGcConfig → RegistryGcConfig
apply_defaults c =
    let job = default_to (codes "registry") c.job_name in
    record c {
      job_name = job;
      group_name = default_to job c.group_name;
      registry_data_dir =
          default_to (codes "/mnt/gdrive/munchbox-data/registry") c.registry_data_dir;
      registry_image = default_to (codes "registry:3") c.registry_image;
    }

pub record RegistryGcResult : Type 0 where
  pub node_name : Text
  pub node_addr : Text
  pub blobs_deleted : ℕ
  pub before_bytes : Entry
  pub after_bytes : Entry
  pub bytes_reclaimed : Entry
  pub dry_run : Bool

-- Before any size is reported the three texts are empty; `unknown` stands for that too.
unfoldable pub first_result : Bool → RegistryGcResult
first_result dry_run = record {
  node_name = [];
  node_addr = [];
  blobs_deleted = 0;
  before_bytes = unknown;
  after_bytes = unknown;
  bytes_reclaimed = unknown;
  dry_run = dry_run;
}

unfoldable pub report : Size → Size → RegistryGcResult → RegistryGcResult
report before after r =
    let (b, a, d) = size_report before after in
    record r { before_bytes = b; after_bytes = a; bytes_reclaimed = d }

module _ (c : Cluster) where
  -- What runs once the job is scaled down, before the deferred function.
  unfoldable pub collect :
      RegistryGcConfig → NodeInfo → Size → Run (Saga RegistryGcResult) (Unit {0})
  unfolding measure_best_effort report
  collect cfg node before = do
    within "wait for registry allocs to drain" (lift (act (wait_drained cfg.job_name) c.drained))
    blobs ← within "run registry garbage-collect" (lift (act (garbage_collect node) c.blobs))
    set_result (λ r. record r { blobs_deleted = blobs })
    after ← lift (measure_best_effort c node cfg.registry_data_dir)
    set_result (report before after)

  -- The workflow with its configuration filled in.
  unfoldable pub gc_steps : RegistryGcConfig → Run (Saga RegistryGcResult) (Unit {0})
  unfolding collect compensate scale_to measure_best_effort
  gc_steps cfg = do
    node ← within "find registry node" (lift (act (find_job_node cfg.job_name) c.node))
    set_result (λ r. record r { node_name = node.name; node_addr = node.address })
    before ← lift (measure_best_effort c node cfg.registry_data_dir)
    within "scale registry to 0" (lift (scale_to c cfg.job_name cfg.group_name 0))
    deferred (lift (compensate c cfg.job_name cfg.group_name)) (collect cfg node before)

  unfoldable pub registry_gc : RegistryGcConfig → World → Result (Unit {0}) × Saga RegistryGcResult
  unfolding gc_steps apply_defaults first_result
  registry_gc config w =
      gc_steps (apply_defaults config) (record { world = w; result = first_result config.dry_run })
