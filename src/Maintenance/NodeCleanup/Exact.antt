-- ===== src/Maintenance/NodeCleanup/Exact.antt =====
-- What a scan counts and removes.
use nomad_temporal_jobs.Prelude.{
  ℕ, ◌+◌, ◌≡◌, Bool, true, false, List, [], ◌∷◌, ◌++◌, map, length, length-append, count, keep,
  arith, append-nil, append_assoc, inl, inr, if◌then◌else◌,
}
use nomad_temporal_jobs.Prelude.Result.{Result, Result-cases}
use nomad_temporal_jobs.Prelude.Text.{Text}
use nomad_temporal_jobs.Maintenance.NodeCleanup.{
  CleanupConfig, DirEntry, OrphanAction, skip_excluded, active, within_grace, orphan,
  classify_entry, Sweep, first_sweep, dir_path, sweep_entry, sweep_data_dirs,
}

abbrev pub is_orphan_action : OrphanAction → Bool
is_orphan_action skip_excluded = false
is_orphan_action active = false
is_orphan_action within_grace = false
is_orphan_action orphan = true

abbrev pub is_skip_action : OrphanAction → Bool
is_skip_action skip_excluded = true
is_skip_action active = false
is_skip_action within_grace = true
is_skip_action orphan = false

module _ (remove_all : Text → Result (Unit {0})) (running : List Text) (cfg : CleanupConfig)
    (now : ℕ) where
  -- the entries that the classification makes candidates, and the ones it skips
  abbrev pub is_orphan : DirEntry → Bool
  is_orphan e = is_orphan_action (classify_entry e running cfg now).0

  abbrev pub is_skipped : DirEntry → Bool
  is_skipped e = is_skip_action (classify_entry e running cfg now).0

  abbrev pub orphan_paths : List DirEntry → List Text
  orphan_paths es = map (λ (e : DirEntry). dir_path cfg e.name) (keep is_orphan es)

  abbrev pub to_remove : List DirEntry → List Text
  to_remove es = if cfg.dry_run then [] else orphan_paths es

  abbrev Swept : List DirEntry → Sweep → Sweep → Type 0
  Swept es s t =
      (t.scanned ≡ s.scanned + length es)
      × (t.orphaned ≡ s.orphaned + count is_orphan es)
      × (t.skipped ≡ s.skipped + count is_skipped es)
      × (t.removals ≡ s.removals ++ to_remove es)
      × (t.deleted + length t.errors ≡ s.deleted + length s.errors + length (to_remove es))

  sweep_entry-Swept :
      (e : DirEntry) (s : Sweep) → Swept (e ∷ []) s (sweep_entry remove_all running cfg now e s)
  unfolding sweep_entry
  sweep_entry-Swept e s = elim (Result-cases (remove_all (dir_path cfg e.name))) [
    | inl (u, q) ↦ ground (arith, q, append-nil s.removals, length-append s.errors (e.name ∷ []))
    | inr (f, q) ↦ ground (arith, q, append-nil s.removals, length-append s.errors (e.name ∷ []))
  ]

  sweep_data_dirs-Swept :
      (es : List DirEntry) (s : Sweep)
      → Swept es s (sweep_data_dirs remove_all es running cfg now s)
  unfolding sweep_data_dirs
  sweep_data_dirs-Swept [] s = ground (arith, append-nil s.removals)
  sweep_data_dirs-Swept (e ∷ es) s = ground (
    arith,
    sweep_entry-Swept e s,
    sweep_data_dirs-Swept es (sweep_entry remove_all running cfg now e s),
    append_assoc s.removals (to_remove (e ∷ [])) (to_remove es),
  )

  -- A scan counts every entry, the candidates and the skipped ones. It asks to remove the
  -- directories of exactly the candidates, in order, and none in a dry run; each removal that it
  -- asks for is counted as deleted or leaves an error.
  pub sweep_data_dirs_exact :
      (es : List DirEntry)
      → let t = sweep_data_dirs remove_all es running cfg now first_sweep in
        (t.scanned ≡ length es)
        × (t.orphaned ≡ count is_orphan es)
        × (t.skipped ≡ count is_skipped es)
        × (t.removals ≡ (if cfg.dry_run then [] else orphan_paths es))
        × (t.deleted + length t.errors ≡ length (to_remove es))
  sweep_data_dirs_exact es = ground (arith, sweep_data_dirs-Swept es first_sweep)
