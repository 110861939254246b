-- ===== src/Trivy/Report/Inserted.antt =====
-- The rows that the inserts of `saveScanResult` of trivyscan/activities/activities.go write.
use nomad_temporal_jobs.Prelude.{
  All, ap, map, Option, none, some, ◌≡◌, refl, true, List, [], ◌∷◌, ◌++◌, arith, append-nil,
  append_assoc, inl, inr,
}
use nomad_temporal_jobs.Prelude.Result.{ok, is_ok, Result-cases}
use nomad_temporal_jobs.Prelude.Text.{Text, is_empty}
use nomad_temporal_jobs.Trivy.Report.{
  Vulnerability, VulnerabilityRow, null_string, vulnerability_row, scan_row, ScanResult, Rows,
  Database, insert_all, transaction,
}

-- an empty text is stored as NULL
abbrev pub or_null : Text → Option Text
or_null [] = none
or_null (c ∷ s) = some (c ∷ s)

abbrev pub entry_row : Vulnerability → VulnerabilityRow
entry_row v = record {
  vuln_id = v.vuln_id;
  severity = v.severity;
  pkg_name = v.pkg_name;
  installed_version = v.installed_version;
  fixed_version = or_null v.fixed_version;
  title = or_null v.title;
  description = or_null v.description;
}

-- A scan has its image, status and error, and one row for each of its entries.
abbrev pub rows_of : ScanResult → Rows
rows_of r = record {
  scan = record { image = r.image; status = r.status; error = r.error };
  stored = map entry_row r.vulnerabilities;
}

null_string-or_null : (s : Text) → null_string s ≡ or_null s
unfolding null_string is_empty
null_string-or_null [] = refl
null_string-or_null (c ∷ s) = refl

vulnerability_row-entry_row : (v : Vulnerability) → vulnerability_row v ≡ entry_row v
unfolding vulnerability_row
vulnerability_row-entry_row v =
    rw
      (
        null_string-or_null v.fixed_version,
        null_string-or_null v.title,
        null_string-or_null v.description,
      )
      refl

module _ (db : Database) where
  insert_all-rows :
      (vs : List Vulnerability) (done rows : List VulnerabilityRow)
      → insert_all db vs done ≡ ok rows
      → rows ≡ done ++ map entry_row vs
  unfolding insert_all
  insert_all-rows [] done rows p = ground (arith, p, append-nil done)
  insert_all-rows (v ∷ vs) done rows p =
      let row = vulnerability_row v in
      elim (Result-cases (db.insert_vulnerability row)) [
        | inl (u, q) ↦ ground (
          arith,
          p,
          q,
          insert_all-rows vs (done ++ (row ∷ [])) rows,
          append_assoc done (row ∷ []) (map entry_row vs),
          vulnerability_row-entry_row v,
        )
        | inr (e, q) ↦ ground (arith, p, q)
      ]

  pub transaction-rows :
      (r : ScanResult) (rows : Rows) → transaction db r ≡ ok rows → rows ≡ rows_of r
  unfolding transaction scan_row
  transaction-rows r rows p = elim (Result-cases (insert_all db r.vulnerabilities [])) [
    | inl (stored, q) ↦ ground (
      arith,
      p,
      q,
      Result-cases db.begin,
      Result-cases (db.insert_scan (scan_row r)),
      insert_all-rows r.vulnerabilities [] stored q,
    )
    | inr (e, q) ↦
        ground (arith, p, q, Result-cases db.begin, Result-cases (db.insert_scan (scan_row r)))
  ]

  -- The database took every row.
  abbrev pub IsAccepted : Rows → Type 0
  IsAccepted rows =
      (is_ok db.begin ≡ true)
      × (is_ok (db.insert_scan rows.scan) ≡ true)
      × All (λ (row : VulnerabilityRow). is_ok (db.insert_vulnerability row) ≡ true) rows.stored

  insert_all-accepted :
      (vs : List Vulnerability) (done rows : List VulnerabilityRow)
      → insert_all db vs done ≡ ok rows
      → All
          (λ (row : VulnerabilityRow). is_ok (db.insert_vulnerability row) ≡ true)
          (map entry_row vs)
  unfolding insert_all
  insert_all-accepted [] done rows p = tt
  insert_all-accepted (v ∷ vs) done rows p =
      let row = vulnerability_row v in
      elim (Result-cases (db.insert_vulnerability row)) [
        | inl (u, q) ↦ (
          ground (arith, q, vulnerability_row-entry_row v),
          insert_all-accepted vs (done ++ (row ∷ [])) rows (ground (arith, p, q)),
        )
        | inr (e, q) ↦ ground (arith, p, q)
      ]

  pub transaction-IsAccepted :
      (r : ScanResult) (rows : Rows) → transaction db r ≡ ok rows → IsAccepted (rows_of r)
  unfolding transaction scan_row
  transaction-IsAccepted r rows p = elim (Result-cases db.begin) [
    | inr (e, q) ↦ ground (arith, p, q)
    | inl (u, q) ↦ elim (Result-cases (db.insert_scan (scan_row r))) [
      | inr (e, k) ↦ ground (arith, p, q, k)
      | inl (v, k) ↦ elim (Result-cases (insert_all db r.vulnerabilities [])) [
        | inr (e, i) ↦ ground (arith, p, q, k, i)
        | inl (stored, i) ↦
            (ap is_ok q, ap is_ok k, insert_all-accepted r.vulnerabilities [] stored i)
      ]
    ]
  ]

  insert_all-ok :
      (vs : List Vulnerability) (done : List VulnerabilityRow)
      → ((row : VulnerabilityRow) → is_ok (db.insert_vulnerability row) ≡ true)
      → is_ok (insert_all db vs done) ≡ true
  unfolding insert_all
  insert_all-ok [] done h = refl
  insert_all-ok (v ∷ vs) done h = ground (
    arith,
    h (vulnerability_row v),
    Result-cases (db.insert_vulnerability (vulnerability_row v)),
    insert_all-ok vs (done ++ (vulnerability_row v ∷ [])) h,
  )

  pub transaction-ok :
      (r : ScanResult)
      → is_ok db.begin ≡ true
      → is_ok (db.insert_scan (scan_row r)) ≡ true
      → ((row : VulnerabilityRow) → is_ok (db.insert_vulnerability row) ≡ true)
      → is_ok (transaction db r) ≡ true
  unfolding transaction
  transaction-ok r b s v = ground (
    arith,
    b,
    s,
    Result-cases db.begin,
    Result-cases (db.insert_scan (scan_row r)),
    Result-cases (insert_all db r.vulnerabilities []),
    insert_all-ok r.vulnerabilities [] v,
  )
