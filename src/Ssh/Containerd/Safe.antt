-- ===== src/Ssh/Containerd/Safe.antt =====
-- What a prune of the image store may delete.
use nomad_temporal_jobs.Prelude.{
  suc, ◌+◌, ◌≡◌, refl, ◌∙◌, ap, Bool, true, false, not, List, [], ◌∷◌, ◌++◌, keep, length,
  length-append, arith, append-nil, append_assoc, inl, inr, ◌⊎◌,
}
use nomad_temporal_jobs.Prelude.Result.{ok, is_ok, Result-cases}
use nomad_temporal_jobs.Prelude.Text.{Text, codes, text_eq, text_eq_refl, text_eq_iff, contains}
use nomad_temporal_jobs.Ssh.Containerd.{
  PruneResult, no_prune, Daemons, referenced_images, prune_candidates, delete_images, prune_images,
  containerd_prune,
}

module _ (d : Daemons) where
  abbrev Deleted : List Text → PruneResult × List Text → PruneResult × List Text → Type 0
  Deleted names s t =
      (t.1 ≡ s.1 ++ names)
      × (t.0.deleted + length t.0.warnings ≡ s.0.deleted + length s.0.warnings + length names)
      × (t.0.skipped ≡ s.0.skipped)
      × (t.0.candidates ≡ s.0.candidates)

  delete_images-Deleted :
      (names : List Text) (s : PruneResult × List Text) → Deleted names s (delete_images d names s)
  unfolding delete_images
  delete_images-Deleted [] s = ground (arith, append-nil s.1)
  delete_images-Deleted (n ∷ ns) s = elim (Result-cases (d.delete_image n)) [
    | inl (u, q) ↦ ground (
      arith,
      q,
      append_assoc s.1 (n ∷ []) ns,
      delete_images-Deleted ns (record (s.0) { deleted = suc s.0.deleted }, s.1 ++ (n ∷ [])),
    )
    | inr (e, q) ↦ ground (
      arith,
      q,
      append_assoc s.1 (n ∷ []) ns,
      length-append s.0.warnings (n ∷ []),
      delete_images-Deleted ns
          (record (s.0) { warnings = s.0.warnings ++ (n ∷ []) }, s.1 ++ (n ∷ [])),
    )
  ]

  prune_images_real :
      (names : List Text)
      → let (r, asked) = prune_images d false names in
        (asked ≡ names) × (r.deleted + length r.warnings ≡ length names)
  unfolding prune_images
  prune_images_real names = ground (arith, delete_images-Deleted names (no_prune, []))

  prune_images_dry :
      (names : List Text)
      → prune_images d true names ≡ (record no_prune { candidates = length names }, [])
  unfolding prune_images
  prune_images_dry names = refl

  containerd_prune_runs :
      (refs images : List Text) (dry_run : Bool)
      → d.storage_driver ≡ ok (codes "overlay2")
      → is_ok d.client ≡ true
      → referenced_images d ≡ ok refs
      → d.list_images ≡ ok images
      → containerd_prune d dry_run
        ≡ ok (prune_images d dry_run (keep (λ img. not (contains refs img)) images))
  unfolding containerd_prune prune_candidates
  containerd_prune_runs refs images dry_run p c r l =
      ground (arith, p, c, r, l, text_eq_refl (codes "overlay2"))

  -- On overlay2, with every listing answered, a prune answers with a result; a real one asks to
  -- delete exactly the images that back no container, in order, and counts each as deleted or warns
  -- of it, and a dry one asks to delete none and counts them.
  pub containerd_prune_exact :
      (refs images : List Text)
      → d.storage_driver ≡ ok (codes "overlay2")
      → is_ok d.client ≡ true
      → referenced_images d ≡ ok refs
      → d.list_images ≡ ok images
      → let unused = keep (λ img. not (contains refs img)) images in
        ((r : PruneResult) × (containerd_prune d false ≡ ok (r, unused))
          × (r.deleted + length r.warnings ≡ length unused))
        × (containerd_prune d true ≡ ok (record no_prune { candidates = length unused }, []))
  containerd_prune_exact refs images p c r l =
      let unused = keep (λ img. not (contains refs img)) images in
      let (at, n) = prune_images_real unused in
      (
        (
          (prune_images d false unused).0,
          containerd_prune_runs refs images false p c r l
              ∙ ap (λ a. ok ((prune_images d false unused).0, a)) at,
          n,
        ),
        containerd_prune_runs refs images true p c r l ∙ ap ok (prune_images_dry unused),
      )

  -- A prune that deletes anything is no dry run, and the storage driver that docker reported is
  -- overlay2: with any other one it asks for no deletion and says that it was skipped.
  pub containerd_prune_safe :
      (driver : Text) (dry_run : Bool) (r : PruneResult) (asked : List Text)
      → d.storage_driver ≡ ok driver
      → containerd_prune d dry_run ≡ ok (r, asked)
      → ((asked ≡ []) × ((text_eq driver (codes "overlay2") ≡ true) ⊎ (r.skipped ≡ true)))
        ⊎ ((dry_run ≡ false) × (driver ≡ codes "overlay2"))
  unfolding containerd_prune prune_images
  containerd_prune_safe driver true r asked p q = ground (arith, p, q)
  containerd_prune_safe driver false r asked p q =
      ground (arith, p, q, text_eq_iff driver (codes "overlay2"))
