-- ===== src/Backup/Dumps/Whole.antt =====
-- A backup file is whole or not there.
use Prim.Native.String.{String}
use nomad_temporal_jobs.Prelude.{
  ℕ, ◌≡◌, ◌⊎◌, inl, refl, sym, ap, ◌∙◌, arith, Bool, true, false, Option, none, some, if◌then◌else◌,
}
use nomad_temporal_jobs.Prelude.Result.{Result, Failure, ok, err, context, wrap, is_ok}
use nomad_temporal_jobs.Heartbeat.{ending, with_heartbeat_lem}
use nomad_temporal_jobs.Prelude.Text.{Text, text_eq, text_eq_iff}
use nomad_temporal_jobs.Prelude.Trace.{Run, pure, within, continue, ◌>>◌}
use nomad_temporal_jobs.Backup.Dumps.{
  Disk, put_path, FileCalls, Program, remove_file, discard, copy_closed, copy_ended, file_made,
  dump_closed, dump_flushed, dump_ended, dump_made, answer, stream_to_file, run_dump_to_gzip,
  program_result, take_snapshot, snapshot_path, backup_postgres_globals, globals_path,
  backup_postgres_database, database_path,
}

-- Where the work ended well the path holds that content and nothing else changed; where it failed,
-- no path changed but for this one, which then holds nothing.
abbrev pub IsWhole : {A : Type 0} → Text → Text → Disk → Result A × Disk → Type 0
IsWhole path content disk (ok a, disk') =
    (p : Text) → disk' p ≡ (if text_eq path p then some content else disk p)
IsWhole path content disk (err e, disk') =
    (p : Text) → (disk' p ≡ disk p) ⊎ ((path ≡ p) × (disk' p ≡ none))

module _ (file : FileCalls) (removes : file.removed ≡ ok tt) (whole : Text) where
  discard-IsWhole :
      (A : Type 0) (path : Text) (e : Failure) (disk : Disk)
      → IsWhole path whole disk
          (discard {A = A} file path e (put_path path (some file.written) disk))
  unfolding discard remove_file put_path
  discard-IsWhole A path e disk p = ground (arith, removes, text_eq_iff path p)

  -- the disk behind the creation of the file
  abbrev filled : Text → Disk → Disk
  filled path disk = put_path path (some file.written) disk

  filled_lem :
      (path : Text) (disk : Disk)
      → file.written ≡ whole
      → (p : Text) → filled path disk p ≡ (if text_eq path p then some whole else disk p)
  unfolding put_path
  filled_lem path disk h p = ground (arith, h)

  copy_closed-IsWhole :
      (path : Text) (disk : Disk) (r : Result (Unit {0}))
      → (is_ok r ≡ true → file.written ≡ whole)
      → IsWhole path whole disk (copy_closed file path r (filled path disk))
  unfolding copy_closed
  copy_closed-IsWhole path disk (ok u) h = filled_lem path disk (h refl)
  copy_closed-IsWhole path disk (err e) h = discard-IsWhole ℕ path (wrap "close" e) disk

  copy_ended-IsWhole :
      (path : Text) (disk : Disk) (r : Option Failure)
      → (r ≡ none → is_ok file.closed ≡ true → file.written ≡ whole)
      → IsWhole path whole disk (copy_ended file path r (filled path disk))
  unfolding copy_ended
  copy_ended-IsWhole path disk (some e) h = discard-IsWhole ℕ path (wrap "write" e) disk
  copy_ended-IsWhole path disk none h = copy_closed-IsWhole path disk file.closed (h refl)

  file_made-IsWhole :
      (path : Text) (disk : Disk) (r : Result (Unit {0}))
      → (file.copied ≡ none → is_ok file.closed ≡ true → file.written ≡ whole)
      → IsWhole path whole disk (file_made file path r disk)
  unfolding file_made
  file_made-IsWhole path disk (ok u) h = copy_ended-IsWhole path disk file.copied h
  file_made-IsWhole path disk (err e) h = λ p. inl refl

  stream_to_file-IsWhole :
      (path : Text) (disk : Disk)
      → (file.copied ≡ none → is_ok file.closed ≡ true → file.written ≡ whole)
      → IsWhole path whole disk (stream_to_file file path disk)
  unfolding stream_to_file
  stream_to_file-IsWhole path disk h = file_made-IsWhole path disk file.created h

  dump_closed-IsWhole :
      (path : Text) (disk : Disk) (r : Result (Unit {0}))
      → (is_ok r ≡ true → file.written ≡ whole)
      → IsWhole path whole disk (dump_closed file path r (filled path disk))
  unfolding dump_closed
  dump_closed-IsWhole path disk (ok u) h = filled_lem path disk (h refl)
  dump_closed-IsWhole path disk (err e) h = discard-IsWhole (Unit {0}) path (wrap "close" e) disk

  dump_flushed-IsWhole :
      (path : Text) (disk : Disk) (r : Result (Unit {0}))
      → (is_ok r ≡ true → is_ok file.closed ≡ true → file.written ≡ whole)
      → IsWhole path whole disk (dump_flushed file path r (filled path disk))
  unfolding dump_flushed
  dump_flushed-IsWhole path disk (ok u) h = dump_closed-IsWhole path disk file.closed (h refl)
  dump_flushed-IsWhole path disk (err e) h =
      discard-IsWhole (Unit {0}) path (wrap "flush gzip" e) disk

  dump_ended-IsWhole :
      (path : Text) (disk : Disk) (r : Result (Unit {0}))
      → (is_ok r ≡ true
          → is_ok file.flushed ≡ true
          → is_ok file.closed ≡ true
          → file.written ≡ whole)
      → IsWhole path whole disk (dump_ended file path r (filled path disk))
  unfolding dump_ended
  dump_ended-IsWhole path disk (ok u) h = dump_flushed-IsWhole path disk file.flushed (h refl)
  dump_ended-IsWhole path disk (err e) h = discard-IsWhole (Unit {0}) path (wrap "run" e) disk

  dump_made-IsWhole :
      (path : Text) (heartbeat : Bool) (program : Program) (disk : Disk) (r : Result (Unit {0}))
      → (is_ok (program_result heartbeat program) ≡ true
          → is_ok file.flushed ≡ true
          → is_ok file.closed ≡ true
          → file.written ≡ whole)
      → IsWhole path whole disk (dump_made file path heartbeat program r disk)
  unfolding dump_made
  dump_made-IsWhole path heartbeat program disk (ok u) h =
      dump_ended-IsWhole path disk (program_result heartbeat program) h
  dump_made-IsWhole path heartbeat program disk (err e) h = λ p. inl refl

  globals_dump-IsWhole :
      (path : Text) (program : Program) (disk : Disk)
      → (is_ok program.run ≡ true
          → is_ok file.flushed ≡ true
          → is_ok file.closed ≡ true
          → file.written ≡ whole)
      → IsWhole path whole disk (run_dump_to_gzip file path false program disk)
  unfolding run_dump_to_gzip program_result
  globals_dump-IsWhole path program disk h =
      dump_made-IsWhole path false program disk file.created h

  database_dump-IsWhole :
      (path : Text) (program : Program) (disk : Disk)
      → (is_ok (ending program.run_watched) ≡ true
          → is_ok file.flushed ≡ true
          → is_ok file.closed ≡ true
          → file.written ≡ whole)
      → IsWhole path whole disk (run_dump_to_gzip file path true program disk)
  unfolding run_dump_to_gzip program_result
  database_dump-IsWhole path program disk h =
      dump_made-IsWhole path true program disk file.created
        (λ p. h (ap (λ q. is_ok q.0) (sym (with_heartbeat_lem program.run_watched)) ∙ p))

module _ {A : Type 0} where
  -- The steps around the work on a file: before it nothing is touched, behind it the path is answered.
  around :
      (path content : Text) (before : Result (Unit {0})) (text : String) (m : Run Disk A)
      (disk : Disk)
      → IsWhole path content disk (m disk)
      → IsWhole path content disk ((answer before >> within text m >> pure path) disk)
  around path content (err e) text m disk h = λ p. inl refl
  around path content (ok u) text m disk h = keeps (m disk).0 (m disk).1 h
    where
      keeps :
          (r : Result A) (disk' : Disk)
          → IsWhole path content disk (r, disk')
          → IsWhole path content disk ((continue (context text r) (λ a. pure path)) disk')
      keeps (ok a) disk' k = k
      keeps (err e) disk' k = k

snapshot_around :
    (path content : Text) (made snapshot : Result (Unit {0})) (m : Run Disk ℕ) (disk : Disk)
    → IsWhole path content disk (m disk)
    → IsWhole path content disk
        ((answer made >> answer snapshot >> within "write snapshot" m >> pure path) disk)
snapshot_around path content (err e) snapshot m disk h = λ p. inl refl
snapshot_around path content (ok u) snapshot m disk h =
    around path content snapshot "write snapshot" m disk h

-- Where removing a file works, a copy without error leaves the whole snapshot in a file that closes,
-- and a dump program that succeeds leaves its whole archive in a file that is flushed and closes: a
-- snapshot, the dump of the globals and the dump of a database that succeed leave the whole snapshot
-- or archive at their path and no other path changed; one that fails, at whatever step, leaves its own
-- path without a file or every path as it was.
pub backups-IsWhole :
    (stream globals database : FileCalls) (snapshot globals_archive database_archive : Text)
    (dir timestamp service name : Text) (made asked : Result (Unit {0}))
    (pg_dumpall pg_dump : Program) (disk : Disk)
    → stream.removed ≡ ok tt
    → globals.removed ≡ ok tt
    → database.removed ≡ ok tt
    → (stream.copied ≡ none → is_ok stream.closed ≡ true → stream.written ≡ snapshot)
    → (is_ok pg_dumpall.run ≡ true
        → is_ok globals.flushed ≡ true
        → is_ok globals.closed ≡ true
        → globals.written ≡ globals_archive)
    → (is_ok (ending pg_dump.run_watched) ≡ true
        → is_ok database.flushed ≡ true
        → is_ok database.closed ≡ true
        → database.written ≡ database_archive)
    → IsWhole
        (snapshot_path dir service timestamp)
        snapshot
        disk
        (take_snapshot service dir timestamp made asked stream disk)
      × IsWhole
          (globals_path dir timestamp)
          globals_archive
          disk
          (backup_postgres_globals dir timestamp made globals pg_dumpall disk)
      × IsWhole
          (database_path dir name timestamp)
          database_archive
          disk
          (backup_postgres_database dir timestamp name made database pg_dump disk)
unfolding take_snapshot backup_postgres_globals backup_postgres_database
backups-IsWhole stream globals database snapshot globals_archive database_archive dir timestamp
      service name made asked pg_dumpall pg_dump disk rs rg rd hs hg hd =
    (
      let path = snapshot_path dir service timestamp in
          snapshot_around path snapshot (context "create backup dir" made)
            (context "snapshot" asked) (stream_to_file stream path) disk
            (stream_to_file-IsWhole stream rs snapshot path disk hs),
      let path = globals_path dir timestamp in
          around path globals_archive (context "create backup dir" made) "postgres globals dump"
            (run_dump_to_gzip globals path false pg_dumpall) disk
            (globals_dump-IsWhole globals rg globals_archive path pg_dumpall disk hg),
      let path = database_path dir name timestamp in
          around path database_archive (context "create backup dir" made) "postgres dump"
            (run_dump_to_gzip database path true pg_dump) disk
            (database_dump-IsWhole database rd database_archive path pg_dump disk hd),
    )
