-- ===== src/Backup/Workflow.antt =====
-- The backup workflow: backup/workflows/backup.go, `ApplyDefaults` of the workflow's configuration in
-- backup/activities/activities.go. The three legs share no state, and the fan-out over the databases
-- leaves each outcome at its own index (see FanOut), so the legs are functions of the answers of the
-- activities and the dumps are a map over the databases. Times and log lines are left out.
pub mod Outcome
use nomad_temporal_jobs.Prelude.{
  ℕ, ℤ, pos, ltb_ℤ, Bool, true, false, List, [], ◌∷◌, ◌++◌, map, if◌then◌else◌,
}
use nomad_temporal_jobs.Prelude.Result.{Result, Failure, wrap, both, ok, err, context, is_ok}
use nomad_temporal_jobs.Prelude.Text.{Text, codes}
use nomad_temporal_jobs.Backup.Upload.{sanitize_db_name}

pub record BackupConfig : Type 0 where
  pub local_days : ℤ
  pub s3_days : ℤ
  pub s3_cleanup : Bool
  pub dump_concurrency : ℤ

abbrev positive_or : ℕ → ℤ → ℤ
positive_or d n = if ltb_ℤ (pos 0) n then n else pos d

unfoldable pub apply_defaults : BackupConfig → BackupConfig
apply_defaults c = record c {
  local_days = positive_or 7 c.local_days;
  s3_days = positive_or 30 c.s3_days;
  dump_concurrency = positive_or 4 c.dump_concurrency;
}

pub record UploadRequest : Type 0 where
  pub local_path : Text
  pub key_prefix : Text
  pub tags : List (Text × Text)

pub record DatabaseBackup : Type 0 where
  pub database : Text
  pub local_path : Text
  pub s3_key : Text

pub record BackupResult : Type 0 where
  pub nomad_snapshot : Text
  pub consul_snapshot : Text
  pub nomad_s3_key : Text
  pub consul_s3_key : Text
  pub postgres_globals : Text
  pub postgres_globals_s3_key : Text
  pub postgres_databases : List DatabaseBackup
  pub success : Bool

-- The activities, as they answer in this run.
pub record Activities : Type 0 where
  pub take_nomad_snapshot : Result Text
  pub take_consul_snapshot : Result Text
  pub backup_postgres_globals : Result Text
  pub list_postgres_databases : Result (List Text)
  pub backup_postgres_database : Text → Result Text
  pub upload_to_s3 : UploadRequest → Result Text
  pub cleanup_old_backups : ℤ → Result (Unit {0})
  pub cleanup_old_s3_backups : ℤ → Result (Unit {0})

abbrev pub s3_prefix_root : Text
s3_prefix_root = codes "backups/"

abbrev pub s3_prefix_postgres : Text
s3_prefix_postgres = s3_prefix_root ++ codes "postgres"

abbrev pub backup_tags : Text → List (Text × Text)
backup_tags backup_type = (codes "backup", backup_type) ∷ []

-- A key, or the empty one where the upload failed.
key_or_empty : Result Text → Text
key_or_empty (ok key) = key
key_or_empty (err e) = []

-- What a leg leaves: the path, the key and its answer.
pub record Leg : Type 0 where
  pub path : Text
  pub key : Text
  pub answer : Result (Unit {0})

-- `errors.Join` of two answers
unfoldable pub join : Result (Unit {0}) → Result (Unit {0}) → Result (Unit {0})
join (ok u) r = r
join (err e) (ok u) = err e
join (err e) (err f) = err (both e f)

-- The leg for PostgreSQL: the globals, the databases, its answer.
pub record PostgresLeg : Type 0 where
  pub globals : Text
  pub globals_key : Text
  pub databases : List DatabaseBackup
  pub answer : Result (Unit {0})

-- The retention activities that are called, with their days.
pub data Cleanup : Type 0 where
  local_backups s3_backups : ℤ → Cleanup

module _ (a : Activities) where
  unfoldable pub snapshot_leg : Result Text → Text → Leg
  unfolding key_or_empty
  snapshot_leg (err e) backup_type = record {
    path = [];
    key = [];
    answer = err (wrap "snapshot" e);
  }
  snapshot_leg (ok path) backup_type = record {
    path = path;
    key = key_or_empty (
        a.upload_to_s3 (record {
          local_path = path;
          key_prefix = s3_prefix_root ++ backup_type;
          tags = backup_tags backup_type;
        }));
    answer = ok tt;
  }

  -- A dump that was taken is uploaded.
  unfoldable pub dumped : Text → Result Text → DatabaseBackup × Result (Unit {0})
  unfolding key_or_empty
  dumped db (err e) = (record { database = db; local_path = []; s3_key = [] }, err (wrap "dump" e))
  dumped db (ok path) =
      let safe = sanitize_db_name db in
      (
        record {
          database = db;
          local_path = path;
          s3_key = key_or_empty (
              a.upload_to_s3 (record {
                local_path = path;
                key_prefix = s3_prefix_postgres ++ (b'/' ∷ safe);
                tags = (codes "backup", codes "postgres") ∷ (codes "database", safe) ∷ [];
              }));
        },
        ok tt,
      )

  unfoldable pub dump_database : Text → DatabaseBackup × Result (Unit {0})
  unfolding dumped
  dump_database db = dumped db (a.backup_postgres_database db)

  unfoldable pub join_dumps : List Text → Result (Unit {0})
  unfolding dump_database
  join_dumps [] = ok tt
  join_dumps (db ∷ dbs) = join (dump_database db).1 (join_dumps dbs)

  unfoldable pub listed : Text → Text → Result (List Text) → PostgresLeg
  unfolding join_dumps
  listed globals key (err e) = record {
    globals = globals;
    globals_key = key;
    databases = [];
    answer = err (wrap "list postgres databases" e);
  }
  listed globals key (ok dbs) = record {
    globals = globals;
    globals_key = key;
    databases = map (λ db. (dump_database db).0) dbs;
    answer = context "one or more database dumps failed" (join_dumps dbs);
  }

  globals_taken : Result Text → PostgresLeg
  unfolding listed key_or_empty
  globals_taken (err e) = record {
    globals = [];
    globals_key = [];
    databases = [];
    answer = err (wrap "postgres globals" e);
  }
  globals_taken (ok path) =
      listed path
        (key_or_empty (
          a.upload_to_s3 (record {
            local_path = path;
            key_prefix = s3_prefix_postgres;
            tags = backup_tags (codes "postgres");
          })))
        a.list_postgres_databases

  unfoldable pub postgres_leg : PostgresLeg
  unfolding globals_taken
  postgres_leg = globals_taken a.backup_postgres_globals

  -- The retention after the legs; a cleanup that fails is only logged.
  unfoldable pub retention : BackupConfig → Result (Unit {0}) → List Cleanup
  retention c (err e) = []
  retention c (ok u) =
      local_backups c.local_days ∷ (if c.s3_cleanup then s3_backups c.s3_days ∷ [] else [])

  -- The result of the workflow, its answer, and the cleanups that it called.
  unfoldable pub backup : BackupConfig → BackupResult × Result (Unit {0}) × List Cleanup
  unfolding snapshot_leg postgres_leg retention
  backup config =
      let nomad = snapshot_leg a.take_nomad_snapshot (codes "nomad") in
      let consul = snapshot_leg a.take_consul_snapshot (codes "consul") in
      let answer = join nomad.answer (join consul.answer postgres_leg.answer) in
      (
        record {
          nomad_snapshot = nomad.path;
          consul_snapshot = consul.path;
          nomad_s3_key = nomad.key;
          consul_s3_key = consul.key;
          postgres_globals = postgres_leg.globals;
          postgres_globals_s3_key = postgres_leg.globals_key;
          postgres_databases = postgres_leg.databases;
          success = is_ok answer;
        },
        answer,
        retention (apply_defaults config) answer,
      )
