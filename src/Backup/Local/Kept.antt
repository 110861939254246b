-- ===== src/Backup/Local/Kept.antt =====
-- What a sweep of the local backups removes.
use nomad_temporal_jobs.Prelude.{
  ℕ, ◌≡◌, refl, Bool, true, false, ◌&&◌, List, [], ◌∷◌, ◌++◌, map, keep, arith, if◌then◌else◌,
  append_assoc, append-nil,
}
use nomad_temporal_jobs.Prelude.Result.{Result, ok, err, is_ok}
use nomad_temporal_jobs.Prelude.Text.{Text}
use nomad_temporal_jobs.Backup.Local.{
  WalkEntry, Directory, missing, stat_failed, walk, is_due, prune_backup_entry, walk_dir,
  cleanup_directory, cleanup_old_backups,
}

-- the entries that a walk meets before its first error, and the directories that do not stop a sweep
abbrev pub met : List (Result WalkEntry) → List WalkEntry
met [] = []
met (err e ∷ entries) = []
met (ok d ∷ entries) = d ∷ met entries

abbrev all_ok : List (Result WalkEntry) → Bool
all_ok [] = true
all_ok (err e ∷ entries) = false
all_ok (ok d ∷ entries) = all_ok entries

abbrev pub is_passed : Directory → Bool
is_passed missing = true
is_passed (stat_failed e) = false
is_passed (walk entries) = all_ok entries

abbrev pub met_in : Directory → List WalkEntry
met_in missing = []
met_in (stat_failed e) = []
met_in (walk entries) = met entries

-- what the sweep comes to before the first directory that stops it, that one included
abbrev pub reached : List Directory → List WalkEntry
reached [] = []
reached (d ∷ ds) = met_in d ++ (if is_passed d then reached ds else [])

abbrev pub all_passed : List Directory → Bool
all_passed [] = true
all_passed (d ∷ ds) = is_passed d && all_passed ds

module _ (remove : Text → Result (Unit {0})) (cutoff : ℕ) where
  abbrev pub due_paths : List WalkEntry → List Text
  due_paths ds = map (λ (d : WalkEntry). d.path) (keep (is_due remove cutoff) ds)

  walk_dir_exact :
      (entries : List (Result WalkEntry)) (log : List Text)
      → ((walk_dir remove cutoff entries log).1 ≡ log ++ due_paths (met entries))
        × (is_ok ((walk_dir remove cutoff entries log).0) ≡ all_ok entries)
  unfolding walk_dir prune_backup_entry
  walk_dir_exact [] log = ground (arith, append-nil log)
  walk_dir_exact (err e ∷ entries) log = ground (arith, append-nil log)
  walk_dir_exact (ok d ∷ entries) log = ground (
    arith,
    walk_dir_exact entries log,
    walk_dir_exact entries (log ++ (d.path ∷ [])),
    append_assoc log (d.path ∷ []) (due_paths (met entries)),
  )

  due_paths-append : (xs ys : List WalkEntry) → due_paths (xs ++ ys) ≡ due_paths xs ++ due_paths ys
  due_paths-append [] ys = refl
  due_paths-append (x ∷ xs) ys = ground (arith, due_paths-append xs ys)

  cleanup_directory_exact :
      (d : Directory) (log : List Text)
      → ((cleanup_directory remove cutoff d log).1 ≡ log ++ due_paths (met_in d))
        × (is_ok ((cleanup_directory remove cutoff d log).0) ≡ is_passed d)
  unfolding cleanup_directory
  cleanup_directory_exact missing log = ground (arith, append-nil log)
  cleanup_directory_exact (stat_failed e) log = ground (arith, append-nil log)
  cleanup_directory_exact (walk entries) log = walk_dir_exact entries log

  -- The files that a sweep of the directories asks to remove are, in order, exactly those that are
  -- backups and older than the cutoff among what the walks meet until the first error of a directory
  -- or of a walk, also behind a removal that failed; and it succeeds exactly without such an error.
  -- A missing directory is none.
  pub cleanup_old_backups_exact :
      (ds : List Directory) (log : List Text)
      → ((cleanup_old_backups remove cutoff ds log).1 ≡ log ++ due_paths (reached ds))
        × (is_ok ((cleanup_old_backups remove cutoff ds log).0) ≡ all_passed ds)
  unfolding cleanup_old_backups
  cleanup_old_backups_exact [] log = ground (arith, append-nil log)
  cleanup_old_backups_exact (d ∷ ds) log =
      let (r, log') = cleanup_directory remove cutoff d log in
      ground (
        arith,
        cleanup_directory_exact d log,
        cleanup_old_backups_exact ds (log ++ due_paths (met_in d)),
        due_paths-append (met_in d) (reached ds),
        due_paths-append (met_in d) [],
        append_assoc log (due_paths (met_in d)) (due_paths (reached ds)),
        append-nil (met_in d),
      )
