-- ===== src/Examples/Stores.antt =====
-- The scan and the backups at concrete inputs.
use nomad_temporal_jobs.Prelude.{
  ℕ, zero, suc, ◌≡◌, ◌⊎◌, inl, pos, Bool, true, false, ◌&&◌, List, [], ◌∷◌, ◌++◌, some,
}
use nomad_temporal_jobs.Prelude.Result.{Result, Failure, external, ok, err, is_ok}
use nomad_temporal_jobs.Prelude.Text.{Text, codes}
use nomad_temporal_jobs.Trivy.Report.{Vulnerability, Rows, Database, scan_image}
use nomad_temporal_jobs.Trivy.Report.Inserted.{IsAccepted, rows_of}
use nomad_temporal_jobs.Trivy.Report.Stored.{scan_of, scan_image_atomic}
use nomad_temporal_jobs.Backup.Store.{Object, Service}
use nomad_temporal_jobs.Backup.Upload.{upload_to_s3}
use nomad_temporal_jobs.Backup.Upload.Attempts.{Uploads, upload_to_s3_bounded}
use nomad_temporal_jobs.Backup.Workflow.{BackupConfig, Activities, backup}
use nomad_temporal_jobs.Backup.Workflow.Outcome.{listed_all_dumped, backup-success_iff}

abbrev cve : Vulnerability
cve = record {
  vuln_id = codes "CVE-1";
  severity = codes "high";
  pkg_name = codes "zlib";
  installed_version = codes "1";
  fixed_version = [];
  title = [];
  description = codes "text";
}

abbrev report : List (List Vulnerability)
report = (cve ∷ cve ∷ []) ∷ (cve ∷ []) ∷ []

-- A database whose commit takes effect and is answered with an error.
abbrev database : Database
database = record {
  begin = ok tt;
  insert_scan = λ image. ok tt;
  insert_vulnerability = λ id. ok tt;
  commit = err (external "connection lost");
  commit_applied = true;
}

abbrev trivy : Text → Result (List (List Vulnerability)) ⊎ Text
trivy image = inl (ok report)

abbrev image : Text
image = codes "app:1"

abbrev no_rows : List Rows
no_rows = []

scan_image_atomic_example :
    let (answer, after) = scan_image database trivy image no_rows in
    ((r : List (List Vulnerability)) × (trivy image ≡ inl (ok r))
      × IsAccepted database (rows_of (scan_of image r))
      × (((answer ≡ ok (record (scan_of image r) { vulnerabilities = [] })) × (false ≡ true))
          ⊎ ((is_ok answer ≡ false) × (false ≡ false)))
      × (after ≡ no_rows ++ (rows_of (scan_of image r) ∷ [])))
    ⊎ ((is_ok answer ≡ false) × (after ≡ no_rows))
scan_image_atomic_example = scan_image_atomic database trivy image no_rows

abbrev objects : List Object
objects =
    record { key = codes "b/2"; last_modified = some 20 }
    ∷ record { key = codes "b/1"; last_modified = some 10 }
    ∷ []

-- A store with room for one put after so many deletions.
put_room : ℕ → Result (Unit {0}) × ℕ
put_room zero = (ok tt, zero)
put_room (suc n) = (err (external "InsufficientStorage"), suc n)

delete_room : ℕ → Result (Unit {0}) × ℕ
delete_room zero = (ok tt, zero)
delete_room (suc n) = (ok tt, n)

abbrev service : Service ℕ
service = record {
  put = λ key s. put_room s;
  list_objects = λ prefix s. (ok objects, s);
  delete_object = λ key s. delete_room s;
}

abbrev is_quota : Failure → Bool
is_quota e = true

-- The file can be opened three times.
abbrev opens : ℕ → Result (Unit {0})
opens zero = err (external "no such file")
opens (suc n) = ok tt

upload_to_s3_bounded_example :
    let u = upload_to_s3 service is_quota opens (ok tt) (codes "b") (codes "3") 2 in
    ((true ≡ false) × (is_ok u.0 ≡ false) × (u.1 ≡ 2))
    ⊎ ((true ≡ true) × Uploads service is_quota opens (codes "b") (codes "b/3") 3 2 u)
upload_to_s3_bounded_example =
    upload_to_s3_bounded service is_quota opens (ok tt) (codes "b") (codes "3") 2

abbrev config : BackupConfig
config = record {
  local_days = pos 0;
  s3_days = pos 14;
  s3_cleanup = true;
  dump_concurrency = pos 2;
}

-- Uploads fail, all else works.
abbrev activities : Activities
activities = record {
  take_nomad_snapshot = ok (codes "n.snap");
  take_consul_snapshot = ok (codes "c.snap");
  backup_postgres_globals = ok (codes "g.sql.gz");
  list_postgres_databases = ok (codes "app" ∷ codes "web" ∷ []);
  backup_postgres_database = λ db. ok db;
  upload_to_s3 = λ r. err (external "down");
  cleanup_old_backups = λ days. ok tt;
  cleanup_old_s3_backups = λ days. ok tt;
}

backup-success_iff_example :
    let (result, answer, cleanups) = backup activities config in
    (result.success ≡ is_ok answer)
    × (is_ok answer
        ≡ true
          && (true && (true && listed_all_dumped activities activities.list_postgres_databases)))
backup-success_iff_example = backup-success_iff activities config
