-- ===== src/Maintenance/AptlyCleanup/Restored.antt =====
-- Aptly is scaled back, on every path behind a scale-down that was answered well.
use nomad_temporal_jobs.Prelude.{ℕ, ◌≡◌, ◌⊎◌, true, false, [], ◌∷◌, arith}
use nomad_temporal_jobs.Prelude.Result.{is_ok}
use nomad_temporal_jobs.Maintenance.Saga.{World, Cluster, scales}
use nomad_temporal_jobs.Maintenance.AptlyCleanup.{AptlyCleanupConfig, aptly_cleanup}

abbrev pub start : ℕ → World
start n = record { log = []; count = n }

-- A run that reports no error has scaled the job to 0 and then back to 1, and leaves the count at 1.
-- Any run has done one of three things: it never scaled the job; it asked to scale the job to 0, was
-- answered with an error, asked no more, and reports an error; or it asked for 0 and then for 1,
-- whether what lay between failed or not, and leaves the count at 1 or reports an error.
pub aptly_cleanup_restores :
    (c : Cluster) (config : AptlyCleanupConfig) (n : ℕ)
    → let (r, s) = aptly_cleanup c config (start n) in
      (is_ok r ≡ true → (scales s.world.log ≡ 0 ∷ 1 ∷ []) × (s.world.count ≡ 1))
      × ((scales s.world.log ≡ [])
          ⊎ ((scales s.world.log ≡ 0 ∷ []) × (is_ok r ≡ false))
          ⊎ ((scales s.world.log ≡ 0 ∷ 1 ∷ []) × ((s.world.count ≡ 1) ⊎ (is_ok r ≡ false))))
unfolding aptly_cleanup
aptly_cleanup_restores c config n = ground arith
