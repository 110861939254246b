-- ===== src/MediaImport/Reconcile.antt =====
-- The workflow: `Reconcile` and `reconcileFolder` of mediaimport/workflows/reconcile.go,
-- `ListCompleted` of mediaimport/activities/activities.go. The fan-out leaves each result at its own
-- index (see FanOut), so the results are a map over the folders.
pub mod Outcome
use nomad_temporal_jobs.Prelude.{
  ℕ, ◌+◌, ltb, Bool, true, false, ◌&&◌, not, List, [], ◌∷◌, ◌++◌, map, keep, if◌then◌else◌,
}
use nomad_temporal_jobs.Prelude.Result.{Result, Failure, external, ok, err, ◌>>=◌}
use nomad_temporal_jobs.Prelude.Text.{Text}
use nomad_temporal_jobs.MediaImport.Arr.{
  App, sonarr, radarr, ImportFile, ImportRequest, ImportResult, Service, import_folder,
}

-- A torrent; `finished` is the comparison of its progress with 100.0.
pub record Torrent : Type 0 where
  pub name : Text
  pub finished : Bool

-- Deluge answers a login with whether the password is right.
unfoldable pub list_completed : Result Bool → Result (List Torrent) → Result (List Text)
list_completed (err e) torrents = err e
list_completed (ok false) torrents = err (external "deluge auth.login rejected the password")
list_completed (ok true) torrents =
    torrents >>= λ ts. ok (map (λ (t : Torrent). t.name) (keep (λ (t : Torrent). t.finished) ts))

abbrev Posts : Type 0
Posts = List (List ImportFile)

-- The result that stands for an activity that failed.
unfoldable pub failed_import : App → Text → ImportResult
failed_import app folder = record {
  folder = folder;
  app = app;
  imported = 0;
  skipped = 0;
  flagged = folder ∷ [];
  no_match = false;
}

unfoldable pub tried_radarr : Text → Result ImportResult × Posts → ImportResult × Posts
unfolding failed_import
tried_radarr folder (err e, posts) = (failed_import radarr folder, posts)
tried_radarr folder (ok r, posts) = (r, posts)

unfoldable pub after_posts : Posts → ImportResult × Posts → ImportResult × Posts
after_posts before (r, posts) = (r, before ++ posts)

unfoldable pub tried_sonarr :
    Text → Result ImportResult × Posts → ImportResult × Posts → ImportResult × Posts
unfolding failed_import after_posts
tried_sonarr folder (err e, posts) next = (failed_import sonarr folder, posts)
tried_sonarr folder (ok r, posts) next =
    if not r.no_match then (r, posts) else after_posts posts next

module _ (tv film : Service) where
  unfoldable pub reconcile_folder : Bool → Text → ImportResult × Posts
  unfolding tried_sonarr tried_radarr
  reconcile_folder dry_run folder =
      let req : ImportRequest = record { folder = folder; dry_run = dry_run } in
      tried_sonarr folder (import_folder sonarr tv req)
        (tried_radarr folder (import_folder radarr film req))

unfoldable pub is_radarr : App → Bool
is_radarr sonarr = false
is_radarr radarr = true

-- The totals of the loop behind the barrier.
pub record Totals : Type 0 where
  pub imported : ℕ
  pub skipped : ℕ
  pub flagged : List Text

abbrev pub no_totals : Totals
no_totals = record { imported = 0; skipped = 0; flagged = [] }

unfoldable pub add_result : ImportResult → Totals → Totals
unfolding is_radarr
add_result r t = record {
  imported = t.imported + r.imported;
  skipped = t.skipped + r.skipped;
  flagged =
      (if r.no_match && is_radarr r.app then t.flagged ++ (r.folder ∷ []) else t.flagged)
      ++ r.flagged;
}

unfoldable pub add_results : List ImportResult → Totals → Totals
add_results [] t = t
add_results (r ∷ rs) t = add_results rs (add_result r t)

-- What a run leaves: its totals, the imports posted folder by folder, and whether it asked Jellyfin
-- for a scan of the library, whose failure is only logged.
pub record Run : Type 0 where
  pub totals : Totals
  pub posts : List Posts
  pub refreshed : Bool

unfoldable pub reconcile : Service → Service → Bool → Result (List Text) → Result Run
unfolding reconcile_folder add_results
reconcile tv film dry_run listed = listed >>= λ folders.
    let results = map (reconcile_folder tv film dry_run) folders in
    let t = add_results (map (λ (r : ImportResult × Posts). r.0) results) no_totals in
    ok (record {
      totals = t;
      posts = map (λ (r : ImportResult × Posts). r.1) results;
      refreshed = ltb 0 t.imported && not dry_run;
    })
