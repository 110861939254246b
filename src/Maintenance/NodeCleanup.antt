-- ===== src/Maintenance/NodeCleanup.antt =====
-- Removing the orphaned data directories of a node: maintenance/nodecleanup/activities.go. Times are
-- nanoseconds; the age in days is the exact quotient, rounded towards zero, where Go goes through
-- floats and saturates a difference of centuries.
pub mod Safe
pub mod Exact
pub mod Node
use nomad_temporal_jobs.Prelude.{
  ℕ, suc, ◌-◌, ◌*◌, ◌/◌, ℤ, pos, negsuc, sub_ℕ, ltb_ℤ, eqb_ℤ, Bool, true, false, ◌&&◌, ◌||◌, ◌==◌,
  leb, List, [], ◌∷◌, ◌++◌, if◌then◌else◌,
}
use nomad_temporal_jobs.Prelude.Result.{Result, Failure, ok, err}
use nomad_temporal_jobs.Prelude.Text.{Text, codes, contains, is_empty, trim_right}

pub record CleanupConfig : Type 0 where
  pub data_dir : Text
  pub grace_days : ℤ
  pub concurrency : ℤ
  pub dry_run : Bool
  pub docker_prune : Bool
  pub containerd_prune : Bool
  pub rootfs_prune : Bool
  pub buildx_volume_prune : Bool

-- The defaults that the workflow `Cleanup` fills in.
unfoldable pub fill_defaults : CleanupConfig → CleanupConfig
fill_defaults c = record c {
  data_dir = if is_empty c.data_dir then codes "/opt/nomad/data" else c.data_dir;
  grace_days = if eqb_ℤ c.grace_days (pos 0) then pos 7 else c.grace_days;
  concurrency = if ltb_ℤ (pos 0) c.concurrency then c.concurrency else pos 4;
}

abbrev pub orphan_excludes : List Text
orphan_excludes =
    codes "alloc" ∷ codes "plugins" ∷ codes "tmp" ∷ codes "server" ∷ codes "client" ∷ []

pub record DirEntry : Type 0 where
  pub name : Text
  pub mtime : ℕ

all_digits : Text → Bool
all_digits [] = true
all_digits (x ∷ s) = leb b'0' x && leb x b'9' && all_digits s

-- `indexSuffix.ReplaceAllString(s, "")` for the expression `-[0-9]*$`: the leftmost dash behind
-- which only digits stand goes, with all behind it.
unfoldable pub strip_index : Text → Text
unfolding all_digits
strip_index [] = []
strip_index (x ∷ s) = let rest = strip_index s in if x == b'-' && all_digits s then [] else x ∷ rest

unfoldable pub is_job_running : Text → List Text → Bool
is_job_running dir running = contains running dir || contains running (strip_index dir)

pub data OrphanAction : Type 0 where
  skip_excluded active within_grace orphan : OrphanAction

abbrev pub day : ℕ
day = 24 * (3600 * 1_000_000_000)

-- `int(now.Sub(mtime).Hours() / 24)`
unfoldable pub age_days : ℕ → ℕ → ℤ
age_days now mtime =
    if leb mtime now then pos ((now - mtime) / day) else sub_ℕ 0 ((mtime - now) / day)

unfoldable pub classify_entry : DirEntry → List Text → CleanupConfig → ℕ → OrphanAction × ℤ
unfolding is_job_running
classify_entry e running cfg now =
    if contains orphan_excludes e.name
    then (skip_excluded, pos 0)
    else if is_job_running e.name running
    then (active, pos 0)
    else let age = age_days now e.mtime in
      if ltb_ℤ age cfg.grace_days then (within_grace, age) else (orphan, age)

-- The lines of the report.
pub data Line : Type 0 where
  ok_active : Text → Line
  skip_young : ℤ → ℤ → Text → Line
  would_delete : ℤ → Text → Line
  deleted_dir : ℤ → Text → Line

-- The part of `CleanupResult` that the scan fills, its report, and the removals that were asked for.
pub record Sweep : Type 0 where
  pub scanned : ℕ
  pub orphaned : ℕ
  pub deleted : ℕ
  pub skipped : ℕ
  pub errors : List Text
  pub lines : List Line
  pub removals : List Text

abbrev pub first_sweep : Sweep
first_sweep = record {
  scanned = 0;
  orphaned = 0;
  deleted = 0;
  skipped = 0;
  errors = [];
  lines = [];
  removals = [];
}

unfoldable pub dir_path : CleanupConfig → Text → Text
dir_path cfg name = trim_right b'/' cfg.data_dir ++ (b'/' ∷ name)

module _ (remove_all : Text → Result (Unit {0})) where
  remove_orphan : CleanupConfig → Text → ℤ → Sweep → Sweep
  remove_orphan cfg name age s =
      let s' = record s { removals = s.removals ++ (dir_path cfg name ∷ []) } in
      elim (remove_all (dir_path cfg name)) [
        | ok u ↦ record s' {
          lines = s.lines ++ (deleted_dir age name ∷ []);
          deleted = suc s.deleted;
        }
        | err e ↦ record s' { errors = s.errors ++ (name ∷ []) }
      ]

  -- The body of the loop for one entry, by its action. The error text is kept as the name in it.
  act_on : OrphanAction → CleanupConfig → Text → ℤ → Sweep → Sweep
  unfolding remove_orphan
  act_on skip_excluded cfg name age s = record s { skipped = suc s.skipped }
  act_on active cfg name age s = record s { lines = s.lines ++ (ok_active name ∷ []) }
  act_on within_grace cfg name age s = record s {
    lines = s.lines ++ (skip_young age cfg.grace_days name ∷ []);
    skipped = suc s.skipped;
  }
  act_on orphan cfg name age s =
      let s' = record s { orphaned = suc s.orphaned } in
      if cfg.dry_run
      then record s' { lines = s.lines ++ (would_delete age name ∷ []) }
      else remove_orphan cfg name age s'

  unfoldable pub sweep_entry : List Text → CleanupConfig → ℕ → DirEntry → Sweep → Sweep
  unfolding act_on
  sweep_entry running cfg now e s =
      let (action, age) = classify_entry e running cfg now in
      act_on action cfg e.name age (record s { scanned = suc s.scanned })

  unfoldable pub sweep_data_dirs : List DirEntry → List Text → CleanupConfig → ℕ → Sweep → Sweep
  sweep_data_dirs [] running cfg now s = s
  sweep_data_dirs (e ∷ entries) running cfg now s =
      sweep_data_dirs entries running cfg now (sweep_entry running cfg now e s)
