-- ===== src/Maintenance/NodeCleanup/Safe.antt =====
-- What may be removed.
use nomad_temporal_jobs.Prelude.{ℕ, ◌≡◌, ◌↔◌, ◌≤ℤ◌, false, List, arith}
use nomad_temporal_jobs.Prelude.Text.{Text, contains}
use nomad_temporal_jobs.Maintenance.NodeCleanup.{
  CleanupConfig, orphan_excludes, DirEntry, strip_index, orphan, age_days, classify_entry,
}

-- A directory is a candidate for removal exactly if it is none of the protected ones, no running
-- job has its name or its name without the index, and it is at least as many days old as the grace
-- period asks.
pub classify_entry-orphan_iff :
    (e : DirEntry) (running : List Text) (cfg : CleanupConfig) (now : ℕ)
    → ((classify_entry e running cfg now).0 ≡ orphan) ↔ (
        (contains orphan_excludes e.name ≡ false)
        × (contains running e.name ≡ false)
        × (contains running (strip_index e.name) ≡ false)
        × (cfg.grace_days ≤ℤ age_days now e.mtime))
unfolding classify_entry
classify_entry-orphan_iff e running cfg now = ground arith
