-- ===== src/Backup/Dumps.antt =====
-- The files that a backup makes: `streamToFile`, `runDumpToGzip`, `TakeNomadSnapshot`,
-- `TakeConsulSnapshot`, `BackupPostgresGlobals` and `BackupPostgresDatabase` of
-- backup/activities/activities.go. The disk is what each path holds; how the calls on a file and the
-- program that writes it end is a record of answers. The directories of the configuration are clean
-- paths, the timestamp is the text of the second.
pub mod Whole
pub mod Collision
use nomad_temporal_jobs.Prelude.{
  ℕ, Bool, true, false, length, List, [], ◌∷◌, ◌++◌, Option, none, some, if◌then◌else◌,
}
use nomad_temporal_jobs.Prelude.Result.{Result, Failure, wrap, ok, err, context}
use nomad_temporal_jobs.Prelude.Text.{Text, codes, text_eq}
use nomad_temporal_jobs.Prelude.Trace.{Run, pure, fail, within, ◌>>=◌, ◌>>◌}
use nomad_temporal_jobs.Heartbeat.{Events, with_heartbeat}
use nomad_temporal_jobs.Backup.Upload.{sanitize_db_name}

abbrev pub Disk : Type 0
Disk = Text → Option Text

-- a path that holds a file, or none
unfoldable pub put_path : Text → Option Text → Disk → Disk
put_path path content disk p = if text_eq path p then content else disk p

-- The calls on the file that a backup makes. `copied` is the error that ended the copy of a stream;
-- `flushed` and `closed` end the gzip writer and the file. `written` is what the file then holds, all
-- of the source or a part of it.
pub record FileCalls : Type 0 where
  pub created : Result (Unit {0})
  pub written : Text
  pub copied : Option Failure
  pub flushed : Result (Unit {0})
  pub closed : Result (Unit {0})
  pub removed : Result (Unit {0})

-- A program of the pg_dump family, under a heartbeat or not.
pub record Program : Type 0 where
  pub run : Result (Unit {0})
  pub run_watched : Events (Unit {0})

-- `_ = os.Remove(path)`
unfoldable pub remove_file : Result (Unit {0}) → Text → Disk → Disk
unfolding put_path
remove_file (ok u) path disk = put_path path none disk
remove_file (err e) path disk = disk

-- A failure behind the creation of a file: the part that was written goes.
unfoldable pub discard : {A : Type 0} → FileCalls → Text → Failure → Run Disk A
unfolding remove_file
discard file path e disk = (err e, remove_file file.removed path disk)

unfoldable pub copy_closed : FileCalls → Text → Result (Unit {0}) → Run Disk ℕ
unfolding discard
copy_closed file path (ok u) = pure (length file.written)
copy_closed file path (err e) = discard file path (wrap "close" e)

unfoldable pub copy_ended : FileCalls → Text → Option Failure → Run Disk ℕ
unfolding discard copy_closed
copy_ended file path (some e) = discard file path (wrap "write" e)
copy_ended file path none = copy_closed file path file.closed

-- Behind the creation the path holds what reaches the file.
unfoldable pub file_made : FileCalls → Text → Result (Unit {0}) → Run Disk ℕ
unfolding copy_ended put_path
file_made file path (err e) disk = (err (wrap "create" e), disk)
file_made file path (ok u) disk =
    copy_ended file path file.copied (put_path path (some file.written) disk)

unfoldable pub stream_to_file : FileCalls → Text → Run Disk ℕ
unfolding file_made
stream_to_file file path = file_made file path file.created

unfoldable pub dump_closed : FileCalls → Text → Result (Unit {0}) → Run Disk (Unit {0})
unfolding discard
dump_closed file path (ok u) = pure tt
dump_closed file path (err e) = discard file path (wrap "close" e)

unfoldable pub dump_flushed : FileCalls → Text → Result (Unit {0}) → Run Disk (Unit {0})
unfolding discard dump_closed
dump_flushed file path (ok u) = dump_closed file path file.closed
dump_flushed file path (err e) = discard file path (wrap "flush gzip" e)

unfoldable pub dump_ended : FileCalls → Text → Result (Unit {0}) → Run Disk (Unit {0})
unfolding discard dump_flushed
dump_ended file path (ok u) = dump_flushed file path file.flushed
dump_ended file path (err e) = discard file path (wrap "run" e)

unfoldable pub program_result : Bool → Program → Result (Unit {0})
program_result heartbeat program =
    if heartbeat then (with_heartbeat program.run_watched).0 else program.run

unfoldable pub dump_made :
    FileCalls → Text → Bool → Program → Result (Unit {0}) → Run Disk (Unit {0})
unfolding dump_ended put_path program_result
dump_made file path heartbeat program (err e) disk = (err (wrap "create" e), disk)
dump_made file path heartbeat program (ok u) disk =
    dump_ended file path (program_result heartbeat program) (put_path path (some file.written) disk)

unfoldable pub run_dump_to_gzip : FileCalls → Text → Bool → Program → Run Disk (Unit {0})
unfolding dump_made
run_dump_to_gzip file path heartbeat program = dump_made file path heartbeat program file.created

-- `filepath.Join`, of a clean path and a name that is not `.` or `..`
unfoldable pub join_path : Text → Text → Text
join_path dir name = dir ++ (b'/' ∷ name)

unfoldable pub snapshot_path : Text → Text → Text → Text
unfolding join_path
snapshot_path dir service timestamp =
    join_path dir (service ++ (b'-' ∷ (timestamp ++ codes ".snap")))

-- A step that answers without touching the disk.
abbrev pub answer : {A : Type 0} → Result A → Run Disk A
answer r disk = (r, disk)

-- The snapshot of a service, by the answer to making the directory and
-- that of the service.
unfoldable pub take_snapshot :
    Text → Text → Text → Result (Unit {0}) → Result (Unit {0}) → FileCalls → Run Disk Text
unfolding stream_to_file snapshot_path
take_snapshot service dir timestamp made snapshot file =
    answer (context "create backup dir" made)
    >> answer (context "snapshot" snapshot)
    >> within "write snapshot" (stream_to_file file (snapshot_path dir service timestamp))
    >> pure (snapshot_path dir service timestamp)

unfoldable pub globals_path : Text → Text → Text
unfolding join_path
globals_path dir timestamp =
    join_path dir (codes "postgres-globals-" ++ (timestamp ++ codes ".sql.gz"))

unfoldable pub backup_postgres_globals :
    Text → Text → Result (Unit {0}) → FileCalls → Program → Run Disk Text
unfolding run_dump_to_gzip globals_path
backup_postgres_globals dir timestamp made file program =
    answer (context "create backup dir" made)
    >> within "postgres globals dump"
        (run_dump_to_gzip file (globals_path dir timestamp) false program)
    >> pure (globals_path dir timestamp)

unfoldable pub database_path : Text → Text → Text → Text
unfolding join_path
database_path dir database timestamp =
    let safe = sanitize_db_name database in
    join_path (join_path dir safe)
      (codes "postgres-" ++ (safe ++ (b'-' ∷ (timestamp ++ codes ".sql.gz"))))

unfoldable pub backup_postgres_database :
    Text → Text → Text → Result (Unit {0}) → FileCalls → Program → Run Disk Text
unfolding run_dump_to_gzip database_path
backup_postgres_database dir timestamp database made file program =
    answer (context "create backup dir" made)
    >> within "postgres dump"
        (run_dump_to_gzip file (database_path dir database timestamp) true program)
    >> pure (database_path dir database timestamp)

-- `TakeNomadSnapshot` and `TakeConsulSnapshot`
unfoldable pub take_nomad_snapshot :
    Text → Text → Result (Unit {0}) → Result (Unit {0}) → FileCalls → Run Disk Text
unfolding take_snapshot
take_nomad_snapshot = take_snapshot (codes "nomad")

unfoldable pub take_consul_snapshot :
    Text → Text → Result (Unit {0}) → Result (Unit {0}) → FileCalls → Run Disk Text
unfolding take_snapshot
take_consul_snapshot = take_snapshot (codes "consul")
