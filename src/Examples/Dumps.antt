-- ===== src/Examples/Dumps.antt =====
-- The files of the backups at concrete inputs.
use nomad_temporal_jobs.Prelude.{◌≡◌, refl, arith, true, none, some}
use nomad_temporal_jobs.Prelude.Result.{external, ok, err, is_ok}
use nomad_temporal_jobs.Prelude.Text.{Text, codes}
use nomad_temporal_jobs.Heartbeat.{finished, tick, with_heartbeat}
use nomad_temporal_jobs.Backup.Upload.{sanitize_db_name}
use nomad_temporal_jobs.Backup.Dumps.{
  Disk, FileCalls, Program, take_snapshot, snapshot_path, backup_postgres_globals, globals_path,
  backup_postgres_database, database_path, run_dump_to_gzip,
}
use nomad_temporal_jobs.Backup.Dumps.Whole.{IsWhole, backups-IsWhole}
use nomad_temporal_jobs.Backup.Dumps.Collision.{database_dumps_collide}

-- A file of which a part was written.
abbrev half : FileCalls
half = record {
  created = ok tt;
  written = codes "half";
  copied = none;
  flushed = ok tt;
  closed = ok tt;
  removed = ok tt;
}

abbrev whole : Text → FileCalls
whole content = record {
  created = ok tt;
  written = content;
  copied = none;
  flushed = ok tt;
  closed = ok tt;
  removed = ok tt;
}

-- A program that breaks off.
abbrev pg_dumpall : Program
pg_dumpall = record {
  run = err (external "signal: killed");
  run_watched = finished (err (external "signal: killed"));
}

abbrev pg_dump : Program
pg_dump = record { run = ok tt; run_watched = tick (finished (ok tt)) }

abbrev no_files : Disk
no_files p = none

abbrev dir : Text
dir = codes "/b"

abbrev second : Text
second = codes "20250101000000"

backups-IsWhole_example :
    IsWhole
      (snapshot_path dir (codes "nomad") second)
      (codes "raft")
      no_files
      (take_snapshot (codes "nomad") dir second (ok tt) (ok tt) (whole (codes "raft")) no_files)
    × IsWhole
        (globals_path dir second)
        (codes "roles")
        no_files
        (backup_postgres_globals dir second (ok tt) half pg_dumpall no_files)
    × IsWhole (database_path dir (codes "app") second) (codes "rows") no_files (
        backup_postgres_database dir second
          (codes "app")
          (ok tt)
          (whole (codes "rows"))
          pg_dump
          no_files)
backups-IsWhole_example =
    backups-IsWhole (whole (codes "raft")) half (whole (codes "rows")) (codes "raft")
      (codes "roles") (codes "rows") dir second (codes "nomad") (codes "app") (ok tt) (ok tt)
      pg_dumpall pg_dump no_files refl refl refl (λ c k. refl) (λ r f k. ground (arith, r))
      (λ r f k. refl)

same_text : sanitize_db_name (codes "a b") ≡ sanitize_db_name (codes "a_b")
unfolding sanitize_db_name
same_text = refl

second_works :
    is_ok
      (backup_postgres_database dir second
        (codes "a_b")
        (ok tt)
        (whole (codes "B"))
        pg_dump
        (backup_postgres_database dir second
          (codes "a b")
          (ok tt)
          (whole (codes "A"))
          pg_dump
          no_files).1).0
    ≡ true
unfolding backup_postgres_database run_dump_to_gzip with_heartbeat
second_works = refl

-- The dump of the database "a b" holds the database "a_b".
database_dumps_collide_example :
    (backup_postgres_database dir second
        (codes "a_b")
        (ok tt)
        (whole (codes "B"))
        pg_dump
        (backup_postgres_database dir second
          (codes "a b")
          (ok tt)
          (whole (codes "A"))
          pg_dump
          no_files).1).1
      (database_path dir (codes "a b") second)
    ≡ some (codes "B")
database_dumps_collide_example =
    database_dumps_collide dir second (codes "a b") (codes "a_b") (ok tt) (ok tt)
      (whole (codes "A")) (whole (codes "B")) pg_dump pg_dump no_files same_text refl second_works
