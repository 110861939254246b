-- ===== src/Backup/Quota.antt =====
-- The configuration of the backups and the errors of a full store: `Config` and `isQuotaError` of
-- backup/activities/activities.go.
use nomad_temporal_jobs.Prelude.{ℕ, ◌==◌, Bool, false, ◌||◌, Option, none, some, if◌then◌else◌}
use nomad_temporal_jobs.Prelude.Result.{Result, external, ok, err}
use nomad_temporal_jobs.Prelude.Text.{Text, codes, text_eq, is_empty, has_substring}

pub record Config : Type 0 where
  pub s3_endpoint : Text
  pub s3_bucket : Text
  pub s3_access_key : Text
  pub s3_secret_key : Text
  pub nomad_backup_dir : Text
  pub consul_backup_dir : Text
  pub postgres_backup_dir : Text
  pub registry_backup_dir : Text
  pub postgres_host : Text
  pub postgres_user : Text

or_default : Text → Text → Text
or_default s d = if is_empty s then d else s

unfoldable pub apply_defaults : Config → Config
unfolding or_default
apply_defaults c = record c {
  nomad_backup_dir = or_default c.nomad_backup_dir (codes "/mnt/gdrive/nomad-snapshots");
  consul_backup_dir = or_default c.consul_backup_dir (codes "/mnt/gdrive/consul-snapshots");
  postgres_backup_dir = or_default c.postgres_backup_dir (codes "/mnt/gdrive/postgres-backups");
  registry_backup_dir = or_default c.registry_backup_dir (codes "/mnt/gdrive/registry-backups");
  postgres_host = or_default c.postgres_host (codes "postgres-primary.service.consul");
  postgres_user = or_default c.postgres_user (codes "postgres");
}

unfoldable pub validate : Config → Result (Unit {0})
validate c =
    if is_empty c.s3_endpoint
    then err (external "S3Endpoint is required")
    else if is_empty c.s3_bucket
    then err (external "S3Bucket is required")
    else if is_empty c.s3_access_key
    then err (external "S3AccessKey is required")
    else if is_empty c.s3_secret_key
    then err (external "S3SecretKey is required")
    else ok tt

-- An error of the store: the code of an API error, the status of a response, and the message.
pub record StoreError : Type 0 where
  pub api_code : Option Text
  pub http_status : Option ℕ
  pub message : Text

has_code : Option Text → Bool
has_code none = false
has_code (some c) = text_eq c (codes "InsufficientStorage")

is_full : Option ℕ → Bool
is_full none = false
is_full (some status) = status == 507

unfoldable pub is_quota_error : StoreError → Bool
unfolding has_code is_full
is_quota_error e =
    has_code e.api_code
    || is_full e.http_status
    || has_substring e.message (codes "InsufficientStorage")
