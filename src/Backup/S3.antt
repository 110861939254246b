-- ===== src/Backup/S3.antt =====
-- The store's client: `Put` and `ListObjects` of shared/client/s3store/s3store.go. The service
-- answers page by page; an upload runs while heartbeating.
use nomad_temporal_jobs.Prelude.{Bool, not, List, [], ◌∷◌, ◌++◌, keep, Option, none, some}
use nomad_temporal_jobs.Prelude.Result.{Result, ok, err}
use nomad_temporal_jobs.Prelude.Text.{Text, codes, has_suffix}
use nomad_temporal_jobs.Heartbeat.{Events, with_heartbeat}
use nomad_temporal_jobs.Backup.Store.{Object}

-- A marker of a directory is no object.
unfoldable pub is_object : Object → Bool
is_object o = not (has_suffix o.key (codes "/"))

objects_before : List Object → Result (List Object) → Result (List Object)
unfolding is_object
objects_before page (ok rest) = ok (keep is_object page ++ rest)
objects_before page (err e) = err e

-- The pages of a listing in order, up to the first that fails.
unfoldable pub list_objects : List (Result (List Object)) → Result (List Object)
unfolding objects_before
list_objects [] = ok []
list_objects (err e ∷ pages) = err e
list_objects (ok page ∷ pages) = objects_before page (list_objects pages)

pub record PutInput : Type 0 where
  pub bucket : Text
  pub key : Text
  pub tagging : Option (List (Text × Text))

-- `encodeTags`, whose text is kept as its pairs
unfoldable pub encode_tags : List (Text × Text) → Option (List (Text × Text))
encode_tags [] = none
encode_tags (t ∷ tags) = some (t ∷ tags)

unfoldable pub put :
    (PutInput → Events (Unit {0})) → Text → Text → List (Text × Text) → Result (Unit {0})
unfolding encode_tags
put upload bucket key tags =
    (with_heartbeat (upload (record { bucket = bucket; key = key; tagging = encode_tags tags }))).0
