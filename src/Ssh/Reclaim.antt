-- ===== src/Ssh/Reclaim.antt =====
-- Sweeps that reclaim whole items: `sweep`, `rootfsOrphans` and `isBuildxStateVolume` of
-- shared/client/ssh/reclaim.go, `RootfsPrune` of shared/client/ssh/rootfs.go and
-- `BuildxVolumePrune` of shared/client/ssh/buildx.go. Beside the result stand the removals that were
-- asked for, in order.
pub mod Exact
use nomad_temporal_jobs.Prelude.{
  ℕ, suc, ◌+◌, ◌%◌, ◌^◌, ◌-◌, ℤ, pos, negsuc, Bool, true, false, ◌&&◌, not, List, [], ◌∷◌, ◌++◌,
  map, keep, if◌then◌else◌,
}
use nomad_temporal_jobs.Prelude.Result.{Result, Failure, ok, err, context, ◌>>=◌}
use nomad_temporal_jobs.Prelude.Text.{Text, codes, has_prefix, has_suffix, has_substring}

-- `uint64(n)` of an int64
abbrev pub to_u64 : ℤ → ℕ
to_u64 (pos n) = n % 2 ^ 64
to_u64 (negsuc n) = 2 ^ 64 - 1 - n % 2 ^ 64

abbrev pub add_u64 : ℕ → ℤ → ℕ
add_u64 a n = (a + to_u64 n) % 2 ^ 64

pub record PruneCandidate : Type 0 where
  pub id : Text
  pub size : ℤ

-- The warnings are kept as the items that they name.
pub record ReclaimResult : Type 0 where
  pub reclaimed : ℕ
  pub reclaimable : ℕ
  pub deleted : ℕ
  pub candidates : ℕ
  pub warnings : List Text

abbrev pub no_reclaim : ReclaimResult
no_reclaim = record { reclaimed = 0; reclaimable = 0; deleted = 0; candidates = 0; warnings = [] }

-- The answer of one removal.
removed : PruneCandidate → Result (Unit {0}) → ReclaimResult → ReclaimResult
removed c (err e) r = record r { warnings = r.warnings ++ (c.id ∷ []) }
removed c (ok u) r = record r { deleted = suc r.deleted; reclaimed = add_u64 r.reclaimed c.size }

module _ (remove : Text → Result (Unit {0})) where
  unfoldable pub sweep_one :
      Bool → PruneCandidate → ReclaimResult × List Text → ReclaimResult × List Text
  unfolding removed
  sweep_one true c (r, asked) = (
    record r { candidates = suc r.candidates; reclaimable = add_u64 r.reclaimable c.size },
    asked,
  )
  sweep_one false c (r, asked) = (removed c (remove c.id) r, asked ++ (c.id ∷ []))

  unfoldable pub sweep_from :
      Bool → List PruneCandidate → ReclaimResult × List Text → ReclaimResult × List Text
  sweep_from dry_run [] s = s
  sweep_from dry_run (c ∷ cs) s = sweep_from dry_run cs (sweep_one dry_run c s)

  unfoldable pub sweep : List PruneCandidate → Bool → ReclaimResult × List Text
  unfolding sweep_from
  sweep cs dry_run = sweep_from dry_run cs (no_reclaim, [])

pub record FileInfo : Type 0 where
  pub name : Text
  pub is_dir : Bool

abbrev pub rootfs_overlay_dir : Text
rootfs_overlay_dir = codes "/var/lib/docker/rootfs/overlayfs"

abbrev pub rootfs_path : Text → Text
rootfs_path name = rootfs_overlay_dir ++ (b'/' ∷ name)

unfoldable pub is_rootfs_orphan : Text → FileInfo → Bool
is_rootfs_orphan mount_info e = e.is_dir && not (has_substring mount_info (rootfs_path e.name))

unfoldable pub rootfs_orphans : List FileInfo → Text → List Text
unfolding is_rootfs_orphan
rootfs_orphans entries mount_info =
    map (λ (e : FileInfo). e.name) (keep (is_rootfs_orphan mount_info) entries)

unfoldable pub is_buildx_state_volume : Text → Bool
is_buildx_state_volume name =
    has_prefix name (codes "buildx_buildkit_") && has_suffix name (codes "_state")

pub record Volume : Type 0 where
  pub name : Text
  pub mountpoint : Text

-- The host, as it answers: `dir_size` is 0 where the size cannot be measured.
pub record Host : Type 0 where
  pub overlay_dir : Result (List FileInfo)
  pub is_missing : Failure → Bool
  pub mount_table : Result Text
  pub dir_size : Text → ℤ
  pub remove_all : Text → Result (Unit {0})
  pub dangling_volumes : Result (List Volume)
  pub remove_volume : Text → Result (Unit {0})

module _ (h : Host) where
  unfoldable pub rootfs_candidates : List FileInfo → Text → List PruneCandidate
  rootfs_candidates entries mounts =
      map (λ name. record { id = rootfs_path name; size = h.dir_size (rootfs_path name) })
        (rootfs_orphans entries mounts)

  -- An overlay directory that is not there is no error.
  unfoldable pub rootfs_prune : Bool → Result (ReclaimResult × List Text)
  unfolding rootfs_candidates
  rootfs_prune dry_run = elim h.overlay_dir [
    | err e ↦ if h.is_missing e then ok (no_reclaim, []) else context "list overlay dir" (err e)
    | ok entries ↦ context "read host mount table" h.mount_table >>= λ mounts.
        ok (sweep h.remove_all (rootfs_candidates entries mounts) dry_run)
  ]

  unfoldable pub buildx_volume_prune : Bool → Result (ReclaimResult × List Text)
  buildx_volume_prune dry_run = context "list volumes" h.dangling_volumes >>= λ volumes. ok (
      sweep h.remove_volume
        (map (λ (v : Volume). record { id = v.name; size = h.dir_size v.mountpoint })
          (keep (λ (v : Volume). is_buildx_state_volume v.name) volumes))
        dry_run)
