-- ===== src/Maintenance/RegistryGc/Restored.antt =====
-- The registry is scaled back, on every path behind a scale-down that was answered well.
use nomad_temporal_jobs.Prelude.{ℕ, ◌≡◌, ◌&&◌, ◌⊎◌, Bool, true, false, List, [], ◌∷◌, ◌++◌, arith}
use nomad_temporal_jobs.Prelude.Result.{Failure, ok, err, is_ok}
use nomad_temporal_jobs.Maintenance.Saga.{
  NodeInfo, Activity, find_job_node, resolve_job_image, measure, scale_job, wait_drained,
  wait_running, garbage_collect, db_cleanup, World, Cluster, scales,
}
use nomad_temporal_jobs.Maintenance.RegistryGc.{RegistryGcConfig, registry_gc, apply_defaults}

abbrev pub start : ℕ → World
start n = record { log = []; count = n }

-- A run that reports no error has scaled the job to 0 and then back to 1, and leaves the count at 1.
-- Any run has done one of three things: it never scaled the job; it asked to scale the job to 0, was
-- answered with an error, asked no more, and reports an error; or it asked for 0 and then for 1,
-- whether what lay between failed or not, and leaves the count at 1 or reports an error.
pub registry_gc_restores :
    (c : Cluster) (config : RegistryGcConfig) (n : ℕ)
    → let (r, s) = registry_gc c config (start n) in
      (is_ok r ≡ true → (scales s.world.log ≡ 0 ∷ 1 ∷ []) × (s.world.count ≡ 1))
      × ((scales s.world.log ≡ [])
          ⊎ ((scales s.world.log ≡ 0 ∷ []) × (is_ok r ≡ false))
          ⊎ ((scales s.world.log ≡ 0 ∷ 1 ∷ []) × ((s.world.count ≡ 1) ⊎ (is_ok r ≡ false))))
unfolding registry_gc
registry_gc_restores c config n = ground arith

-- Where the request to scale to 0 takes effect and yet is answered with an error, the run ends with
-- the count at 0 and never asks to scale back.
pub registry_gc_strands :
    (c : Cluster) (config : RegistryGcConfig) (n : ℕ) (node : NodeInfo) (e : Failure)
    → let cfg = apply_defaults config in
      let before = find_job_node cfg.job_name ∷ measure node cfg.registry_data_dir ∷ [] in
      c.node [] ≡ ok node
      → c.scaling before ≡ err e
      → c.applied before ≡ true
      → let s = (registry_gc c config (start n)).1 in
        (s.world.count ≡ 0) × (scales s.world.log ≡ 0 ∷ [])
unfolding registry_gc
registry_gc_strands c config n node e found down applied = ground arith

abbrev pub collects : List Activity → Bool
collects [] = false
collects (garbage_collect node ∷ log) = true
collects (find_job_node job ∷ log) = collects log
collects (resolve_job_image job ∷ log) = collects log
collects (measure node dir ∷ log) = collects log
collects (scale_job job group n ∷ log) = collects log
collects (wait_drained job ∷ log) = collects log
collects (wait_running job ∷ log) = collects log
collects (db_cleanup node image dir ∷ log) = collects log

-- The garbage collection runs exactly if the request to scale to 0 and the wait for the allocations
-- to drain were both answered well.
pub registry_gc_drains_first :
    (c : Cluster) (config : RegistryGcConfig) (n : ℕ) (node : NodeInfo)
    → let cfg = apply_defaults config in
      let before = find_job_node cfg.job_name ∷ measure node cfg.registry_data_dir ∷ [] in
      c.node [] ≡ ok node
      → collects (registry_gc c config (start n)).1.world.log ≡ (
          is_ok (c.scaling before)
          && is_ok (c.drained (before ++ (scale_job cfg.job_name cfg.group_name 0 ∷ []))))
unfolding registry_gc
registry_gc_drains_first c config n node found = ground arith
