-- ===== src/Backup/Dumps/Collision.antt =====
-- Databases whose names are made safe to the same text.
use nomad_temporal_jobs.Prelude.{◌≡◌, refl, arith, true, [], some}
use nomad_temporal_jobs.Prelude.Result.{Result, ok, err, is_ok}
use nomad_temporal_jobs.Prelude.Text.{Text, text_eq_refl}
use nomad_temporal_jobs.Backup.Upload.{sanitize_db_name}
use nomad_temporal_jobs.Backup.Dumps.{
  Disk, FileCalls, Program, backup_postgres_database, database_path,
}
use nomad_temporal_jobs.Backup.Dumps.Whole.{IsWhole, backups-IsWhole}

whole_content :
    {A : Type 0} (path content : Text) (disk : Disk) (r : Result A × Disk)
    → IsWhole path content disk r
    → is_ok r.0 ≡ true
    → r.1 path ≡ some content
whole_content path content disk (ok a, disk') h k = ground (arith, h path, text_eq_refl path)
whole_content path content disk (err e, disk') h k = ground (arith, k)

database_path_of_safe :
    (dir a b timestamp : Text)
    → sanitize_db_name a ≡ sanitize_db_name b
    → database_path dir a timestamp ≡ database_path dir b timestamp
unfolding database_path
database_path_of_safe dir a b timestamp same = rw same

-- Two databases whose names are made safe to the same text are dumped to one file in the same
-- second: when the second dump succeeds, the path of the first holds the second database, whatever
-- the first dump had written.
pub database_dumps_collide :
    (dir timestamp a b : Text) (made_a made_b : Result (Unit {0})) (file_a file_b : FileCalls)
    (program_a program_b : Program) (disk : Disk)
    → sanitize_db_name a ≡ sanitize_db_name b
    → file_b.removed ≡ ok tt
    → is_ok
        (backup_postgres_database dir timestamp b made_b file_b program_b
          (backup_postgres_database dir timestamp a made_a file_a program_a disk).1).0
      ≡ true
    → (backup_postgres_database dir timestamp b made_b file_b program_b
          (backup_postgres_database dir timestamp a made_a file_a program_a disk).1).1
        (database_path dir a timestamp)
      ≡ some file_b.written
database_dumps_collide dir timestamp a b made_a made_b file_a file_b program_a program_b disk same
      removes success =
    let disk' = (backup_postgres_database dir timestamp a made_a file_a program_a disk).1 in
    rw (database_path_of_safe dir a b timestamp same) (
      whole_content (database_path dir b timestamp) file_b.written disk'
        (backup_postgres_database dir timestamp b made_b file_b program_b disk')
        ((backups-IsWhole file_b file_b file_b file_b.written file_b.written file_b.written dir
          timestamp [] b made_b made_b program_b program_b disk' removes removes removes
          (λ c k. refl) (λ r f k. refl) (λ r f k. refl)).2)
        success)
