-- ===== src/Backup/Local.antt =====
-- Old local backups: `CleanupOldBackups` of backup/activities/activities.go with `cleanupDirectory`,
-- `pruneBackupEntry` and `isBackupFile`. The file system is a parameter: what a walk of a directory
-- meets, entry by entry, and how removals end; beside the result stand the paths asked to go. Times
-- are numbers.
pub mod Kept
use nomad_temporal_jobs.Prelude.{
  ℕ, ltb, Bool, true, false, ◌&&◌, ◌||◌, not, List, [], ◌∷◌, ◌++◌, if◌then◌else◌, ◌==◌,
}
use nomad_temporal_jobs.Prelude.Result.{Result, Failure, wrap, ok, err, is_ok}
use nomad_temporal_jobs.Prelude.Text.{Text, codes, text_eq, has_suffix}
use nomad_temporal_jobs.Prelude.Trace.{Run, call, pure, fail, ignore, ◌>>◌}

-- `filepath.Ext`: from the last dot on, empty without one
ext_from : Text → Text → Text
ext_from found [] = found
ext_from found (c ∷ s) = ext_from (if c == b'.' then c ∷ s else if c == b'/' then [] else found) s

unfoldable pub file_ext : Text → Text
unfolding ext_from
file_ext name = ext_from [] name

unfoldable pub is_backup_file : Text → Bool
unfolding file_ext
is_backup_file name =
    text_eq (file_ext name) (codes ".snap")
    || (has_suffix name (codes ".sql.gz") || has_suffix name (codes ".tar.gz"))

-- An entry that a walk meets.
pub record WalkEntry : Type 0 where
  pub path : Text
  pub name : Text
  pub is_dir : Bool
  pub mod_time : Result ℕ

-- A directory: missing or not readable, or the entries of its walk in order, each of which may be an
-- error that ends the walk.
pub data Directory : Type 0 where
  missing : Directory
  stat_failed : Failure → Directory
  walk : List (Result WalkEntry) → Directory

module _ (remove : Text → Result (Unit {0})) (cutoff : ℕ) where
  is_old : Result ℕ → Bool
  is_old (err e) = false
  is_old (ok t) = ltb t cutoff

  -- what is asked to go
  unfoldable pub is_due : WalkEntry → Bool
  unfolding is_old
  is_due d = not (d.is_dir || not (is_backup_file d.name)) && is_old d.mod_time

  -- A failed removal is logged.
  unfoldable pub prune_backup_entry : WalkEntry → Run (List Text) Bool
  prune_backup_entry d =
      if is_due d then ignore (call d.path (remove d.path)) (λ r. pure (is_ok r)) else pure false

  unfoldable pub walk_dir : List (Result WalkEntry) → Run (List Text) (Unit {0})
  unfolding prune_backup_entry
  walk_dir [] = pure tt
  walk_dir (err e ∷ entries) = fail (wrap "walk dir" e)
  walk_dir (ok d ∷ entries) = prune_backup_entry d >> walk_dir entries

  unfoldable pub cleanup_directory : Directory → Run (List Text) (Unit {0})
  unfolding walk_dir
  cleanup_directory missing = pure tt
  cleanup_directory (stat_failed e) = fail (wrap "stat dir" e)
  cleanup_directory (walk entries) = walk_dir entries

  -- The directories one after the other; the first error ends the sweep.
  unfoldable pub cleanup_old_backups : List Directory → Run (List Text) (Unit {0})
  unfolding cleanup_directory
  cleanup_old_backups [] = pure tt
  cleanup_old_backups (d ∷ ds) = cleanup_directory d >> cleanup_old_backups ds
