-- ===== src/Maintenance/AptlyCleanup.antt =====
-- The aptly cleanup saga: `AptlyCleanup` of maintenance/aptlycleanup/workflow.go, with the
-- configuration of maintenance/aptlycleanup/activities.go.
pub mod Restored
use nomad_temporal_jobs.Prelude.{Bool, List, [], ◌∷◌, ◌++◌, if◌then◌else◌}
use nomad_temporal_jobs.Prelude.Result.{Result, ok, err}
use nomad_temporal_jobs.Prelude.Trace.{Run, pure, within, deferred, ◌>>=◌, ◌>>◌}
use nomad_temporal_jobs.Prelude.Text.{Text, codes, is_empty}
use nomad_temporal_jobs.Maintenance.Bytes.{Size, Entry, unknown, size_report}
use nomad_temporal_jobs.Maintenance.Saga.{
  NodeInfo, Activity, find_job_node, resolve_job_image, wait_drained, db_cleanup, World, Cluster,
  act, measure_best_effort, scale_to, compensate, Saga, lift, set_result,
}

pub record AptlyCleanupConfig : Type 0 where
  pub job_name : Text
  pub group_name : Text
  pub image : Text
  pub data_dir : Text

abbrev default_to : Text → Text → Text
default_to d t = if is_empty t then d else t

unfoldable pub apply_defaults : AptlyCleanupConfig → AptlyCleanupConfig
apply_defaults c =
    let job = default_to (codes "aptly") c.job_name in
    record c {
      job_name = job;
      group_name = default_to job c.group_name;
      data_dir = default_to (codes "/mnt/gdrive/aptly") c.data_dir;
    }

pub record AptlyCleanupResult : Type 0 where
  pub node : Text
  pub output : Text
  pub before_bytes : Entry
  pub after_bytes : Entry
  pub bytes_reclaimed : Entry

-- Before any size is reported the three texts are empty; `unknown` stands for that too.
abbrev pub first_result : AptlyCleanupResult
first_result = record {
  node = [];
  output = [];
  before_bytes = unknown;
  after_bytes = unknown;
  bytes_reclaimed = unknown;
}

unfoldable pub report : Size → Size → AptlyCleanupResult → AptlyCleanupResult
report before after r =
    let (b, a, d) = size_report before after in
    record r { before_bytes = b; after_bytes = a; bytes_reclaimed = d }

module _ (c : Cluster) where
  -- An image in the configuration overrides that of the deployed job.
  unfoldable pub cleanup_image : AptlyCleanupConfig → Run (Saga AptlyCleanupResult) Text
  cleanup_image cfg =
      if is_empty cfg.image
      then within "resolve aptly image" (lift (act (resolve_job_image cfg.job_name) c.image))
      else pure cfg.image

  -- What runs once the job is scaled down, before the deferred function.
  unfoldable pub clean :
      AptlyCleanupConfig → NodeInfo → Text → Size → Run (Saga AptlyCleanupResult) (Unit {0})
  unfolding measure_best_effort report
  clean cfg node image before = do
    within "wait for aptly allocs to drain" (lift (act (wait_drained cfg.job_name) c.drained))
    output ← within "aptly db cleanup" (lift (act (db_cleanup node image cfg.data_dir) c.cleaned))
    set_result (λ r. record r { output = output })
    after ← lift (measure_best_effort c node cfg.data_dir)
    set_result (report before after)

  -- The workflow with its configuration filled in.
  unfoldable pub cleanup_steps : AptlyCleanupConfig → Run (Saga AptlyCleanupResult) (Unit {0})
  unfolding cleanup_image clean compensate scale_to measure_best_effort
  cleanup_steps cfg = do
    node ← within "find aptly node" (lift (act (find_job_node cfg.job_name) c.node))
    set_result (λ r. record r { node = node.name })
    image ← cleanup_image cfg
    before ← lift (measure_best_effort c node cfg.data_dir)
    within "scale aptly to 0" (lift (scale_to c cfg.job_name cfg.group_name 0))
    deferred (lift (compensate c cfg.job_name cfg.group_name)) (clean cfg node image before)

  unfoldable pub aptly_cleanup :
      AptlyCleanupConfig → World → Result (Unit {0}) × Saga AptlyCleanupResult
  unfolding cleanup_steps apply_defaults
  aptly_cleanup config w =
      cleanup_steps (apply_defaults config) (record { world = w; result = first_result })
