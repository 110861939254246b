-- ===== src/Trivy/Report.antt =====
-- Reading and storing the report of trivy: `parseTrivyOutput`, `classifyTrivyError`,
-- `saveScanResult`, `storeScan` and `ScanImage` of trivyscan/activities/activities.go. Unmarshalling
-- the JSON is a parameter; times and log lines are left out.
pub mod Inserted
pub mod Tally
pub mod Stored
use nomad_temporal_jobs.Prelude.{
  ℕ, zero, suc, ◌-◌, ltb, Bool, true, false, ◌||◌, ◌&&◌, ◌⊎◌, inl, inr, ◌==◌, leb, List, [], ◌∷◌,
  ◌++◌, map, length, Option, none, some, if◌then◌else◌,
}
use nomad_temporal_jobs.Prelude.Result.{
  Result, Failure, external, non_retryable, wrap, ok, err, context, ◌>>=◌,
}
use nomad_temporal_jobs.Prelude.Text.{Text, codes, text_eq, contains, is_empty, has_substring}

-- A vulnerability, as trivy reports it and as the worker stores it.
pub record Vulnerability : Type 0 where
  pub vuln_id : Text
  pub severity : Text
  pub pkg_name : Text
  pub installed_version : Text
  pub fixed_version : Text
  pub title : Text
  pub description : Text

pub record SeverityCounts : Type 0 where
  pub critical : ℕ
  pub high : ℕ
  pub medium : ℕ
  pub low : ℕ

abbrev pub no_counts : SeverityCounts
no_counts = record { critical = 0; high = 0; medium = 0; low = 0 }

-- the bytes, with a to z as capitals: the fold of an ASCII severity
unfoldable pub to_upper : Text → Text
to_upper = map (λ c. if leb b'a' c && leb c b'z' then c - 32 else c)

unfoldable pub tally : Text → SeverityCounts → SeverityCounts
unfolding to_upper
tally severity n =
    let s = to_upper severity in
    if text_eq s (codes "CRITICAL")
    then record n { critical = suc n.critical }
    else if text_eq s (codes "HIGH")
    then record n { high = suc n.high }
    else if text_eq s (codes "MEDIUM")
    then record n { medium = suc n.medium }
    else if text_eq s (codes "LOW")
    then record n { low = suc n.low }
    else n

unfoldable pub take_bytes : ℕ → Text → Text
take_bytes zero s = []
take_bytes (suc n) [] = []
take_bytes (suc n) (x ∷ s) = x ∷ take_bytes n s

abbrev pub max_description_len : ℕ
max_description_len = 1000

unfoldable pub clip : Text → Text
unfolding take_bytes
clip desc =
    if ltb max_description_len (length desc)
    then take_bytes (max_description_len - 3) desc ++ codes "..."
    else desc

-- The state of the loop: what was seen, the vulnerabilities kept and their counts.
pub record Parsed : Type 0 where
  pub seen : List Text
  pub vulns : List Vulnerability
  pub counts : SeverityCounts

abbrev pub nothing_parsed : Parsed
nothing_parsed = record { seen = []; vulns = []; counts = no_counts }

unfoldable pub parse_one : Vulnerability → Parsed → Parsed
unfolding tally clip
parse_one v p = if contains p.seen v.vuln_id then p else record {
  seen = v.vuln_id ∷ p.seen;
  vulns = p.vulns ++ (record v { description = clip v.description } ∷ []);
  counts = tally v.severity p.counts;
}

unfoldable pub parse_result : List Vulnerability → Parsed → Parsed
parse_result [] p = p
parse_result (v ∷ vs) p = parse_result vs (parse_one v p)

unfoldable pub parse_results : List (List Vulnerability) → Parsed → Parsed
parse_results [] p = p
parse_results (r ∷ rs) p = parse_results rs (parse_result r p)

pub data ScanErrClass : Type 0 where
  scan_err_unknown scan_err_permanent scan_err_transient : ScanErrClass

unfoldable pub classify_trivy_error : Text → ScanErrClass
classify_trivy_error stderr =
    if has_substring stderr (codes "manifest unknown") || has_substring stderr (codes "not found")
    then scan_err_permanent
    else if has_substring stderr (codes "connection refused")
        || has_substring stderr (codes "timeout")
        || has_substring stderr (codes "connection reset")
    then scan_err_transient
    else scan_err_unknown

pub data Status : Type 0 where
  success pull_failed scan_error : Status

-- The error of a scan that failed, whose text is not empty.
pub record ScanResult : Type 0 where
  pub image : Text
  pub status : Status
  pub error : Option Failure
  pub counts : SeverityCounts
  pub vulnerabilities : List Vulnerability

-- The columns of the two tables; NULL is `none`.
pub record ScanRow : Type 0 where
  pub image : Text
  pub status : Status
  pub error : Option Failure

pub record VulnerabilityRow : Type 0 where
  pub vuln_id : Text
  pub severity : Text
  pub pkg_name : Text
  pub installed_version : Text
  pub fixed_version : Option Text
  pub title : Option Text
  pub description : Option Text

-- The rows that a committed transaction leaves: a scan with its vulnerabilities.
pub record Rows : Type 0 where
  pub scan : ScanRow
  pub stored : List VulnerabilityRow

-- The answers of the database. A commit that is answered with an error may have taken effect all the
-- same: `commit_applied`.
pub record Database : Type 0 where
  pub begin : Result (Unit {0})
  pub insert_scan : ScanRow → Result (Unit {0})
  pub insert_vulnerability : VulnerabilityRow → Result (Unit {0})
  pub commit : Result (Unit {0})
  pub commit_applied : Bool

unfoldable pub null_string : Text → Option Text
null_string s = if is_empty s then none else some s

unfoldable pub vulnerability_row : Vulnerability → VulnerabilityRow
unfolding null_string
vulnerability_row v = record {
  vuln_id = v.vuln_id;
  severity = v.severity;
  pkg_name = v.pkg_name;
  installed_version = v.installed_version;
  fixed_version = null_string v.fixed_version;
  title = null_string v.title;
  description = null_string v.description;
}

unfoldable pub scan_row : ScanResult → ScanRow
scan_row r = record { image = r.image; status = r.status; error = r.error }

module _ (db : Database) where
  -- The loop of inserts; `done` are the rows that it has written in the transaction.
  unfoldable pub insert_all :
      List Vulnerability → List VulnerabilityRow → Result (List VulnerabilityRow)
  unfolding vulnerability_row
  insert_all [] done = ok done
  insert_all (v ∷ vs) done =
      let row = vulnerability_row v in
      let rest = insert_all vs (done ++ (row ∷ [])) in
      context "insert vulnerability" (db.insert_vulnerability row) >>= λ u. rest

  -- The transaction up to its commit, with the rows that it has written.
  unfoldable pub transaction : ScanResult → Result Rows
  unfolding insert_all scan_row
  transaction r = context "begin transaction" db.begin >>= λ u.
      context "insert scan" (db.insert_scan (scan_row r)) >>= λ v.
      insert_all r.vulnerabilities [] >>= λ rows. ok (record { scan = scan_row r; stored = rows })

  -- The answer, and what the database holds afterwards: the deferred rollback undoes all that is
  -- not committed.
  unfoldable pub committed : Rows → Result (Unit {0}) → List Rows → Result (Unit {0}) × List Rows
  committed rows (ok u) store = (ok tt, store ++ (rows ∷ []))
  committed rows (err e) store =
      (err (wrap "commit transaction" e), if db.commit_applied then store ++ (rows ∷ []) else store)

  unfoldable pub written : Result Rows → List Rows → Result (Unit {0}) × List Rows
  unfolding committed
  written (err e) store = (err e, store)
  written (ok rows) store = committed rows db.commit store

  unfoldable pub save_scan_result : ScanResult → List Rows → Result (Unit {0}) × List Rows
  unfolding transaction written
  save_scan_result r store = written (transaction r) store

  unfoldable pub saved :
      Text → ScanResult → Result (Unit {0}) × List Rows → Result ScanResult × List Rows
  saved image r (answer, store) =
      (context "persist scan" answer >>= λ u. ok (record r { vulnerabilities = [] }), store)

  unfoldable pub store_scan :
      Text → Result (List (List Vulnerability)) → List Rows → Result ScanResult × List Rows
  unfolding save_scan_result parse_results saved
  store_scan image (err e) store = (err (non_retryable "PARSE_FAILED"), store)
  store_scan image (ok report) store =
      let p = parse_results report nothing_parsed in
      let r : ScanResult = record {
        image = image;
        status = success;
        error = none;
        counts = p.counts;
        vulnerabilities = p.vulns;
      } in
      saved image r (save_scan_result r store)

  failed_scan : Text → Text → ScanErrClass → Failure
  failed_scan image stderr scan_err_permanent = non_retryable "PULL_FAILED"
  failed_scan image stderr scan_err_transient = external "trivy server unavailable"
  failed_scan image stderr scan_err_unknown = external "scan failed"

  unfoldable pub scanned :
      Text → Result (List (List Vulnerability)) ⊎ Text → List Rows → Result ScanResult × List Rows
  unfolding store_scan failed_scan classify_trivy_error
  scanned image (inl report) store = store_scan image report store
  scanned image (inr stderr) store =
      (err (failed_scan image stderr (classify_trivy_error stderr)), store)

  -- `run` answers with the unmarshalled standard output, or with the standard error.
  unfoldable pub scan_image :
      (Text → Result (List (List Vulnerability)) ⊎ Text)
      → Text
      → List Rows
      → Result ScanResult × List Rows
  unfolding scanned
  scan_image run image store = scanned image (run image) store
