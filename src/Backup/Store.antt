-- ===== src/Backup/Store.antt =====
-- Objects in the store: `oldestObject` and `DeleteOldest` of shared/client/s3store/s3store.go, the
-- sweep of `CleanupOldS3Backups` of backup/activities/activities.go. The service is a record of its
-- requests on a state of its own. Times are seconds.
pub mod Evicted
pub mod Oldest
use nomad_temporal_jobs.Prelude.{
  ℕ, suc, ◌+◌, ltb, Bool, true, false, ◌||◌, List, [], ◌∷◌, ◌++◌, Option, none, some, if◌then◌else◌,
}
use nomad_temporal_jobs.Prelude.Result.{Result, Failure, external, wrap, ok, err}
use nomad_temporal_jobs.Prelude.Text.{Text, codes, text_eq}

pub record Object : Type 0 where
  pub key : Text
  pub last_modified : Option ℕ

-- The requests of the service: an upload under a key, a listing under a prefix, a deletion.
pub record Service (S : Type 0) : Type 0 where
  pub put : Text → S → Result (Unit {0}) × S
  pub list_objects : Text → S → Result (List Object) × S
  pub delete_object : Text → S → Result (Unit {0}) × S

-- the time of an object, unless it is the one to skip
unfoldable pub evict_time : Text → Object → Option ℕ
evict_time skip o = if text_eq o.key skip then none else o.last_modified

before : ℕ → Option ℕ → Bool
before t none = false
before t (some u) = ltb t u

-- `!found || obj.LastModified.Before(*oldest.LastModified)`; the oldest that was found has a time.
unfoldable pub is_older : ℕ → Option Object → Bool
unfolding before
is_older t none = true
is_older t (some o) = before t o.last_modified

unfoldable pub take_older : Object → Option ℕ → Option Object → Option Object
unfolding is_older
take_older o none found = found
take_older o (some t) found = if is_older t found then some o else found

unfoldable pub older_of : Text → Object → Option Object → Option Object
unfolding take_older evict_time
older_of skip o found = take_older o (evict_time skip o) found

unfoldable pub oldest_from : Text → List Object → Option Object → Option Object
oldest_from skip [] found = found
oldest_from skip (o ∷ os) found = oldest_from skip os (older_of skip o found)

unfoldable pub oldest_object : List Object → Text → Option Object
unfolding oldest_from
oldest_object objs skip = oldest_from skip objs none

module _ {S : Type 0} (service : Service S) where
  evict : Option Object → S → Result Text × S
  evict none s = (err (external "no objects to evict"), s)
  evict (some o) s =
      let (r, s') = service.delete_object o.key s in
      elim r [ ok u ↦ (ok o.key, s') | err e ↦ (err e, s') ]

  unfoldable pub delete_oldest : Text → Text → S → Result Text × S
  unfolding evict oldest_object
  delete_oldest prefix skip s =
      let (r, s') = service.list_objects (prefix ++ (b'/' ∷ [])) s in
      elim r [
        | ok objs ↦ evict (oldest_object objs skip) s'
        | err e ↦ (err (wrap "list objects" e), s')
      ]

  -- `obj.LastModified == nil || !obj.LastModified.Before(cutoff)` is what stays.
  unfoldable pub is_expired : ℕ → Object → Bool
  is_expired cutoff o = elim o.last_modified [ none ↦ false | some t ↦ ltb t cutoff ]

  -- The loop, with the deletions that it asked for, in order, and the count of those that worked.
  unfoldable pub expire : ℕ → List Object → S × List Text × ℕ → S × List Text × ℕ
  unfolding is_expired
  expire cutoff [] t = t
  expire cutoff (o ∷ os) (s, asked, deleted) =
      let (r, s') = service.delete_object o.key s in
      let gone : ℕ = elim r [ ok u ↦ suc deleted | err e ↦ deleted ] in
      expire cutoff os
        (if is_expired cutoff o then (s', asked ++ (o.key ∷ []), gone) else (s, asked, deleted))

  unfoldable pub cleanup_old_s3_backups : ℕ → S → Result (Unit {0}) × S × List Text
  unfolding expire
  cleanup_old_s3_backups cutoff s =
      let (r, s') = service.list_objects (codes "backups/") s in
      elim r [
        | ok objs ↦
            let (s'', asked, deleted) = expire cutoff objs (s', [], 0) in (ok tt, s'', asked)
        | err e ↦ (err (wrap "list S3 objects" e), s', [])
      ]
