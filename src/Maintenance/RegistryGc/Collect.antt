-- ===== src/Maintenance/RegistryGc/Collect.antt =====
-- The activity `RunRegistryGarbageCollect` of maintenance/registrygc/activities.go with
-- `parseBlobsDeleted`. What the container prints is a parameter.
use nomad_temporal_jobs.Prelude.{
  ℕ, ◌≡◌, ap, ◌∙◌, Bool, List, [], ◌∷◌, ◌++◌, count, All, if◌then◌else◌,
}
use nomad_temporal_jobs.Prelude.Result.{Result, ok, context, ◌>>=◌}
use nomad_temporal_jobs.Prelude.Text.{Text, codes, has_substring, split, join, split-join, Lacks}
use nomad_temporal_jobs.Maintenance.RegistryGc.{RegistryGcConfig}

-- the arguments of the container
unfoldable pub gc_command : RegistryGcConfig → List Text
gc_command cfg =
    (codes "garbage-collect" ∷ [])
    ++ (if cfg.dry_run then codes "--dry-run" ∷ [] else [])
    ++ (if cfg.delete_untagged then codes "--delete-untagged" ∷ [] else [])
    ++ (codes "/etc/distribution/config.yml" ∷ [])

abbrev pub is_blob_line : Text → Bool
is_blob_line line = has_substring line (codes "blob eligible for deletion:")

unfoldable pub parse_blobs_deleted : Text → ℕ
parse_blobs_deleted output = count is_blob_line (split b'\n' output)

-- `run` answers the image, its arguments and its volume with the output.
unfoldable pub run_registry_garbage_collect :
    (Text → List Text → Text → Result Text) → RegistryGcConfig → Result ℕ
unfolding gc_command parse_blobs_deleted
run_registry_garbage_collect run cfg =
    context "registry garbage-collect" (
      run cfg.registry_image (gc_command cfg) (cfg.registry_data_dir ++ codes ":/var/lib/registry"))
    >>= λ out. ok (parse_blobs_deleted out)

-- When the container prints these lines, none with a line break in it, the result counts those of
-- them that report a blob.
pub run_registry_garbage_collect_counts :
    (run : Text → List Text → Text → Result Text) (cfg : RegistryGcConfig) (line : Text)
    (lines : List Text)
    → run cfg.registry_image (gc_command cfg) (cfg.registry_data_dir ++ codes ":/var/lib/registry")
      ≡ ok (join b'\n' (line ∷ lines))
    → All (Lacks b'\n') (line ∷ lines)
    → run_registry_garbage_collect run cfg ≡ ok (count is_blob_line (line ∷ lines))
unfolding run_registry_garbage_collect
run_registry_garbage_collect_counts run cfg line lines h k =
    ap (λ r. context "registry garbage-collect" r >>= λ out. ok (parse_blobs_deleted out)) h
    ∙ ap (λ l. ok (count is_blob_line l)) (split-join b'\n' line lines k)
