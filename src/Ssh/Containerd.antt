-- ===== src/Ssh/Containerd.antt =====
-- Pruning the image store of containerd: `ContainerdPrune` and `referencedImages` of
-- shared/client/ssh/containerd.go, `containerdStoreIsSafe` of shared/client/ssh/reclaim.go. The host
-- is a record of its answers; beside the result stand the deletions that were asked for, in order.
pub mod Safe
use nomad_temporal_jobs.Prelude.{
  ℕ, suc, ℤ, pos, ◌-ℤ◌, ltb_ℤ, pos_part, Bool, true, false, not, List, [], ◌∷◌, ◌++◌, keep, length,
  if◌then◌else◌,
}
use nomad_temporal_jobs.Prelude.Result.{Result, Failure, ok, err, context, ◌>>=◌}
use nomad_temporal_jobs.Prelude.Text.{Text, codes, text_eq, contains, is_empty}

-- The warnings are kept as the images that they name, the reason as the driver in it.
pub record PruneResult : Type 0 where
  pub reclaimed : ℕ
  pub skipped : Bool
  pub reason : Text
  pub deleted : ℕ
  pub candidates : ℕ
  pub warnings : List Text

abbrev pub no_prune : PruneResult
no_prune = record {
  reclaimed = 0;
  skipped = false;
  reason = [];
  deleted = 0;
  candidates = 0;
  warnings = [];
}

-- The daemons of the host, as they answer. `size_before` and `size_after` are 0 where the directory
-- cannot be measured.
pub record Daemons : Type 0 where
  pub storage_driver : Result Text
  pub client : Result (Unit {0})
  pub containers : Result (List (Result Text))
  pub list_images : Result (List Text)
  pub delete_image : Text → Result (Unit {0})
  pub size_before : ℤ
  pub size_after : ℤ

unfoldable pub containerd_store_is_safe : Text → Bool
containerd_store_is_safe driver = text_eq driver (codes "overlay2")

unfoldable pub collect_refs : List (Result Text) → Result (List Text)
collect_refs [] = ok []
collect_refs (info ∷ infos) =
    let rest = collect_refs infos in
    context "containerd container info" info >>= λ image.
    rest >>= λ refs. ok (if is_empty image then refs else image ∷ refs)

module _ (d : Daemons) where
  unfoldable pub referenced_images : Result (List Text)
  unfolding collect_refs
  referenced_images = context "list containerd containers" d.containers >>= collect_refs

  unfoldable pub prune_candidates : List Text → List Text → List Text
  prune_candidates referenced images = keep (λ img. not (contains referenced img)) images

  deletion : Text → Result (Unit {0}) → PruneResult → PruneResult
  deletion name (err e) r = record r { warnings = r.warnings ++ (name ∷ []) }
  deletion name (ok u) r = record r { deleted = suc r.deleted }

  unfoldable pub delete_images : List Text → PruneResult × List Text → PruneResult × List Text
  unfolding deletion
  delete_images [] s = s
  delete_images (name ∷ names) (r, asked) =
      delete_images names (deletion name (d.delete_image name) r, asked ++ (name ∷ []))

  account : PruneResult × List Text → PruneResult × List Text
  account (r, asked) = (
    record r {
      reclaimed =
          if ltb_ℤ d.size_after d.size_before then pos_part (d.size_before -ℤ d.size_after) else 0;
    },
    asked,
  )

  unfoldable pub prune_images : Bool → List Text → PruneResult × List Text
  unfolding delete_images account
  prune_images true candidates = (record no_prune { candidates = length candidates }, [])
  prune_images false candidates = account (delete_images candidates (no_prune, []))

  unfoldable pub prune_safe : Bool → Result (PruneResult × List Text)
  unfolding referenced_images prune_candidates prune_images
  prune_safe dry_run = d.client >>= λ u. referenced_images >>= λ referenced.
      context "list containerd images" d.list_images >>= λ images.
      ok (prune_images dry_run (prune_candidates referenced images))

  unfoldable pub containerd_prune : Bool → Result (PruneResult × List Text)
  unfolding prune_safe containerd_store_is_safe
  containerd_prune dry_run = d.storage_driver >>= λ driver.
      if containerd_store_is_safe driver
      then prune_safe dry_run
      else ok (record no_prune { skipped = true; reason = driver }, [])
