-- ===== src/Trivy/Scan.antt =====
-- The workflow: `Scan` and `scanImage` of trivyscan/workflows/scan.go. The fan-out leaves each
-- result at its own index (see FanOut), so the results are a map over the images; what the
-- activities answer is a function of the image.
use nomad_temporal_jobs.Prelude.{
  ℕ, ◌+◌, ◌≡◌, ◌∙◌, refl, length, Bool, ◌||◌, ltb, List, [], ◌∷◌, ◌++◌, map, keep, arith, not, some,
}
use nomad_temporal_jobs.Prelude.Result.{Result, Failure, wrap, ok, err, is_ok, Result-cases}
use nomad_temporal_jobs.Prelude.Text.{Text}
use nomad_temporal_jobs.Trivy.Report.{no_counts, ScanResult, scan_error}

error_result : Text → Failure → ScanResult
error_result image e = record {
  image = image;
  status = scan_error;
  error = some e;
  counts = no_counts;
  vulnerabilities = [];
}

-- The result, and what the workflow asked `SaveScanResult` to save; a failure of that is logged.
unfoldable pub scan_one : Text → Result ScanResult → ScanResult × List ScanResult
unfolding error_result
scan_one image (ok r) = (r, [])
scan_one image (err e) = (error_result image e, error_result image e ∷ [])

-- The totals of the loop behind the barrier.
pub record Totals : Type 0 where
  pub critical : ℕ
  pub high : ℕ

unfoldable pub add_all : List ScanResult → Totals → Totals
add_all [] t = t
add_all (r ∷ rs) t =
    add_all rs (record { critical = t.critical + r.counts.critical; high = t.high + r.counts.high })

pub record Run : Type 0 where
  pub images : ℕ
  pub totals : Totals
  pub warned : Bool
  pub saved : List ScanResult

saved_of : List (ScanResult × List ScanResult) → List ScanResult
saved_of [] = []
saved_of (r ∷ rs) = r.1 ++ saved_of rs

abbrev firsts : List (ScanResult × List ScanResult) → List ScanResult
firsts [] = []
firsts (r ∷ rs) = r.0 ∷ firsts rs

module _ (scan_image : Text → Result ScanResult) where
  abbrev outcomes : List Text → List (ScanResult × List ScanResult)
  outcomes images = map (λ image. scan_one image (scan_image image)) images

  unfoldable pub scan : Result (List Text) → Result Run
  unfolding scan_one add_all saved_of
  scan (err e) = err (wrap "get running images" e)
  scan (ok images) =
      let results = outcomes images in
      let t = add_all (firsts results) (record { critical = 0; high = 0 }) in
      ok (record {
        images = length results;
        totals = t;
        warned = ltb 0 t.critical || ltb 0 t.high;
        saved = saved_of results;
      })

  -- the findings of the scans that were answered, by a count of them
  abbrev pub critical_of : Result ScanResult → ℕ
  critical_of (ok r) = r.counts.critical
  critical_of (err e) = 0

  abbrev pub sum_critical : List Text → ℕ
  sum_critical [] = 0
  sum_critical (image ∷ images) = critical_of (scan_image image) + sum_critical images

  abbrev pub failed_images : List Text → List Text
  failed_images images = keep (λ image. not (is_ok (scan_image image))) images

  saved_images :
      (images : List Text)
      → map (λ (r : ScanResult). r.image) (saved_of (outcomes images)) ≡ failed_images images
  unfolding saved_of scan_one error_result
  saved_images [] = refl
  saved_images (image ∷ images) =
      ground (arith, saved_images images, Result-cases (scan_image image))

  critical-add_all :
      (images : List Text) (t : Totals)
      → (add_all (firsts (outcomes images)) t).critical ≡ t.critical + sum_critical images
  unfolding add_all scan_one error_result
  critical-add_all [] t = omega arith
  critical-add_all (image ∷ images) t = ground (
    arith,
    Result-cases (scan_image image),
    critical-add_all images (record {
      critical = t.critical + (scan_one image (scan_image image)).0.counts.critical;
      high = t.high + (scan_one image (scan_image image)).0.counts.high;
    }),
  )

  -- With the images listed the workflow succeeds, whatever becomes of the scans; it asks to save a
  -- row for exactly the images whose scan failed, in order, and its total of critical findings is
  -- that of the scans that were answered.
  pub scan_exact :
      (images : List Text)
      → (r : Run) × (scan (ok images) ≡ ok r)
        × (map (λ (s : ScanResult). s.image) r.saved ≡ failed_images images)
        × (r.totals.critical ≡ sum_critical images)
  unfolding scan
  scan_exact images = (
    _,
    refl,
    saved_images images,
    critical-add_all images (record { critical = 0; high = 0 }) ∙ omega arith,
  )
