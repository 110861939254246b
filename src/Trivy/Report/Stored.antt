-- ===== src/Trivy/Report/Stored.antt =====
-- What a scan leaves in the database.
use nomad_temporal_jobs.Prelude.{
  ap, Bool-cases, sym, none, subst, ◌≡◌, refl, true, false, List, [], ◌∷◌, ◌++◌, arith, inl, inr,
  ◌⊎◌,
}
use nomad_temporal_jobs.Prelude.Result.{Result, ok, err, is_ok, Result-cases}
use nomad_temporal_jobs.Prelude.Text.{Text}
use nomad_temporal_jobs.Trivy.Report.{
  Vulnerability, ScanRow, VulnerabilityRow, scan_row, nothing_parsed, parse_results, ScanResult,
  success, Rows, Database, transaction, committed, written, saved, save_scan_result, store_scan,
  scanned, scan_image,
}
use nomad_temporal_jobs.Trivy.Report.Inserted.{
  rows_of, IsAccepted, transaction-rows, transaction-IsAccepted, transaction-ok,
}

-- the result of a scan that was answered with a report
abbrev pub scan_of : Text → List (List Vulnerability) → ScanResult
scan_of image report =
    let p = parse_results report nothing_parsed in
    record {
      image = image;
      status = success;
      error = none;
      counts = p.counts;
      vulnerabilities = p.vulns;
    }

module _ (db : Database) where
  -- What saving leaves: the rows of the scan, all of them and in order, each taken by the database,
  -- with the answer of the commit; or, where it fails, the database as it was.
  abbrev pub IsSaved : {A : Type 0} → Rows → List Rows → Result A × List Rows → Type 0
  IsSaved rows store (answer, after) =
      (IsAccepted db rows × (is_ok answer ≡ is_ok db.commit) × (after ≡ store ++ (rows ∷ [])))
      ⊎ ((is_ok answer ≡ false) × (after ≡ store))

  committed-IsSaved :
      (rows : Rows) (q : Result (Unit {0})) (store : List Rows)
      → db.commit ≡ q
      → IsAccepted db rows
      → IsSaved rows store (committed db rows q store)
  unfolding committed
  committed-IsSaved rows (ok u) store p a = inl (a, sym (ap is_ok p), refl)
  committed-IsSaved rows (err e) store p a = elim (Bool-cases db.commit_applied) [
    | inl y ↦ inl (a, sym (ap is_ok p), ground (arith, y))
    | inr n ↦ inr (refl, ground (arith, n))
  ]

  written-IsSaved :
      (r : ScanResult) (q : Result Rows) (store : List Rows)
      → transaction db r ≡ q
      → IsSaved (rows_of r) store (written db q store)
  unfolding written
  written-IsSaved r (err e) store p = inr (refl, refl)
  written-IsSaved r (ok rows) store p =
      let same = transaction-rows db r rows p in
      subst (λ rs. IsSaved rs store (committed db rows db.commit store)) same
        (committed-IsSaved rows db.commit store refl
          (subst (IsAccepted db) (sym same) (transaction-IsAccepted db r rows p)))

  save_scan_result-IsSaved :
      (r : ScanResult) (store : List Rows) → IsSaved (rows_of r) store (save_scan_result db r store)
  unfolding save_scan_result
  save_scan_result-IsSaved r store = written-IsSaved r (transaction db r) store refl

  abbrev Atomic :
      (a : Result (List (List Vulnerability)) ⊎ Text) (image : Text) (store : List Rows)
      → Result ScanResult × List Rows
      → Type 0
  Atomic a image store (answer, after) =
      ((report : List (List Vulnerability)) × (a ≡ inl (ok report))
        × IsAccepted db (rows_of (scan_of image report))
        × (((answer ≡ ok (record (scan_of image report) { vulnerabilities = [] }))
              × (is_ok db.commit ≡ true))
            ⊎ ((is_ok answer ≡ false) × (is_ok db.commit ≡ false)))
        × (after ≡ store ++ (rows_of (scan_of image report) ∷ [])))
      ⊎ ((is_ok answer ≡ false) × (after ≡ store))

  saved-Atomic :
      (image : Text) (report : List (List Vulnerability)) (store : List Rows)
      (q : Result (Unit {0}) × List Rows)
      → IsSaved (rows_of (scan_of image report)) store q
      → Atomic (inl (ok report)) image store (saved db image (scan_of image report) q)
  unfolding saved
  saved-Atomic image report store (ok u, after) (inl (a, c, s)) =
      inl (report, refl, a, inl (refl, sym c), s)
  saved-Atomic image report store (ok u, after) (inr (a, s)) = ground (arith, a)
  saved-Atomic image report store (err e, after) (inl (a, c, s)) =
      inl (report, refl, a, inr (refl, sym c), s)
  saved-Atomic image report store (err e, after) (inr (a, s)) = inr (refl, s)

  scanned-Atomic :
      (a : Result (List (List Vulnerability)) ⊎ Text) (image : Text) (store : List Rows)
      → Atomic a image store (scanned db image a store)
  unfolding scanned store_scan
  scanned-Atomic (inl (ok report)) image store =
      saved-Atomic image report store (save_scan_result db (scan_of image report) store)
        (save_scan_result-IsSaved (scan_of image report) store)
  scanned-Atomic (inl (err e)) image store = inr (refl, refl)
  scanned-Atomic (inr stderr) image store = inr (refl, refl)

  -- A scan either answers with an error and leaves the database as it was; or trivy answered with a
  -- report, and the database took and got one scan of the image as a success without error and, with
  -- NULL for each empty text, exactly the kept entries of that report in order, where the commit worked
  -- and the answer is the result of that report without its entries, or both the commit and the scan
  -- were answered with an error.
  pub scan_image_atomic :
      (run : Text → Result (List (List Vulnerability)) ⊎ Text) (image : Text) (store : List Rows)
      → let (answer, after) = scan_image db run image store in
        ((report : List (List Vulnerability)) × (run image ≡ inl (ok report))
          × IsAccepted db (rows_of (scan_of image report))
          × (((answer ≡ ok (record (scan_of image report) { vulnerabilities = [] }))
                × (is_ok db.commit ≡ true))
              ⊎ ((is_ok answer ≡ false) × (is_ok db.commit ≡ false)))
          × (after ≡ store ++ (rows_of (scan_of image report) ∷ [])))
        ⊎ ((is_ok answer ≡ false) × (after ≡ store))
  unfolding scan_image
  scan_image_atomic run image store = scanned-Atomic (run image) image store

  -- If trivy answers with a report and the database answers every request, the scan succeeds.
  pub scan_image_succeeds :
      (run : Text → Result (List (List Vulnerability)) ⊎ Text) (image : Text) (store : List Rows)
      (report : List (List Vulnerability))
      → run image ≡ inl (ok report)
      → is_ok db.begin ≡ true
      → ((row : ScanRow) → is_ok (db.insert_scan row) ≡ true)
      → ((row : VulnerabilityRow) → is_ok (db.insert_vulnerability row) ≡ true)
      → is_ok db.commit ≡ true
      → is_ok (scan_image db run image store).0 ≡ true
  unfolding scan_image scanned store_scan saved save_scan_result written committed
  scan_image_succeeds run image store report p b s v c =
      let r = scan_of image report in
      elim (Result-cases (transaction db r)) [
        | inl (rows, q) ↦ ground (arith, p, q, c, Result-cases db.commit)
        | inr (e, q) ↦ ground (arith, q, transaction-ok db r b (s (scan_row r)) v)
      ]
