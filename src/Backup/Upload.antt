-- ===== src/Backup/Upload.antt =====
-- The upload of one backup: `UploadToS3` and `SanitizeDBName` of backup/activities/activities.go.
-- Opening the file, which every attempt does anew, and telling a quota error from others are
-- parameters; the requests of the store change its state.
pub mod Attempts
use nomad_temporal_jobs.Prelude.{
  ℕ, zero, suc, ◌-◌, Bool, true, false, not, ◌||◌, ◌&&◌, leb, ◌==◌, List, [], ◌∷◌, ◌++◌, map,
  if◌then◌else◌,
}
use nomad_temporal_jobs.Prelude.Result.{Result, Failure, external, both, wrap, ok, err}
use nomad_temporal_jobs.Prelude.Text.{Text}
use nomad_temporal_jobs.Backup.Store.{Service, delete_oldest}

is_safe_byte : ℕ → Bool
is_safe_byte c =
    (leb b'a' c && leb c b'z')
    || (leb b'A' c && leb c b'Z')
    || (leb b'0' c && leb c b'9')
    || (c == b'.')
    || (c == b'_')
    || (c == b'-')

-- On a text of ASCII characters.
unfoldable pub sanitize_db_name : Text → Text
unfolding is_safe_byte
sanitize_db_name = map (λ c. if is_safe_byte c then c else b'_')

-- `open_file` is the answer of opening the file, by the evictions that are still allowed.
module _ {S : Type 0} (service : Service S) (is_quota_error : Failure → Bool)
    (open_file : ℕ → Result (Unit {0})) where
  -- After an eviction: the next attempt, or the end.
  unfoldable pub evicted : Failure → Result Text × S → (S → Result Text × S) → Result Text × S
  evicted e (ok k, s) next = next s
  evicted e (err f, s) next = (err (both (wrap "upload failed (quota) and eviction failed" e) f), s)

  -- After a put, with the further attempts by the number of evictions left.
  unfoldable pub answered :
      ℕ → Text → Text → Result (Unit {0}) × S → (S → Result Text × S) → Result Text × S
  unfolding evicted
  answered left prefix key (ok u, s) next = (ok key, s)
  answered left prefix key (err e, s) next =
      let out = evicted e (delete_oldest service prefix key s) next in
      if not (is_quota_error e) || (left == 0) then (err (wrap "upload" e), s) else out

  -- One attempt, by the answer of opening the file.
  unfoldable pub attempt :
      ℕ → Text → Text → Result (Unit {0}) → S → (S → Result Text × S) → Result Text × S
  unfolding answered
  attempt left prefix key (err e) s next = (err (wrap "open file" e), s)
  attempt left prefix key (ok u) s next = answered left prefix key (service.put key s) next

  -- The attempts, by the number of evictions that are left; the loop never runs out.
  unfoldable pub attempts : ℕ → Text → Text → S → Result Text × S
  unfolding attempt
  attempts zero prefix key s =
      attempt zero prefix key (open_file zero) s
        (λ t. (err (external "failed after eviction attempts"), t))
  attempts (suc left) prefix key s =
      attempt (suc left) prefix key (open_file (suc left)) s (attempts left prefix key)

  -- The upload of the file `base` under a prefix.
  unfoldable pub upload_to_s3 : Result (Unit {0}) → Text → Text → S → Result Text × S
  unfolding attempts
  upload_to_s3 (err e) prefix base s = (err (wrap "stat file" e), s)
  upload_to_s3 (ok u) prefix base s = attempts 3 prefix (prefix ++ (b'/' ∷ base)) s
