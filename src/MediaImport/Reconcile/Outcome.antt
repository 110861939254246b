-- ===== src/MediaImport/Reconcile/Outcome.antt =====
-- What a run imports, and which folders it leaves to a human.
use nomad_temporal_jobs.Prelude.{
  ℕ, ◌+◌, ◌≡◌, refl, sym, ap, ◌∙◌, ltb, Bool, true, false, ◌&&◌, not, List, [], ◌∷◌, ◌++◌, map,
  keep, arith, if◌then◌else◌, append_assoc, append-nil, append-one_if, All,
}
use nomad_temporal_jobs.Prelude.Result.{Result, ok, err, Result-cases}
use nomad_temporal_jobs.Prelude.Text.{Text}
use nomad_temporal_jobs.MediaImport.Arr.{
  Decision, App, sonarr, radarr, ImportFile, ImportRequest, ImportResult, Service, offer_all,
  no_offer, import_result, posted, post_files, decided, import_folder,
}
use nomad_temporal_jobs.MediaImport.Reconcile.{
  Posts, failed_import, tried_radarr, tried_sonarr, after_posts, reconcile_folder, is_radarr,
  Totals, no_totals, add_result, add_results, Run, reconcile,
}

-- an answer of the application on the folder
abbrev IsOn : App → Text → Result ImportResult → Type 0
IsOn app folder (err e) = Unit
IsOn app folder (ok r) = (r.app ≡ app) × ((r.folder ≡ folder) × (r.flagged ≡ []))

post_files-IsOn :
    (app : App) (s : Service) (dry_run : Bool) (r : ImportResult) (files : List ImportFile)
    → IsOn app r.folder (ok r)
    → IsOn app r.folder ((post_files s dry_run r files).0)
unfolding post_files posted
post_files-IsOn app s dry_run r [] h = h
post_files-IsOn app s true r (f ∷ fs) h = h
post_files-IsOn app s false r (f ∷ fs) h =
    ground (arith, h, Result-cases (s.manual_import (f ∷ fs)))

decided-IsOn :
    (app : App) (s : Service) (req : ImportRequest) (answer : Result (List Decision))
    → IsOn app req.folder ((decided app s req answer).0)
unfolding decided import_result
decided-IsOn app s req (err e) = tt
decided-IsOn app s req (ok ds) =
    post_files-IsOn app s req.dry_run _ (offer_all app ds no_offer).files (refl, (refl, refl))

post_files-dry :
    (s : Service) (r : ImportResult) (files : List ImportFile) → (post_files s true r files).1 ≡ []
unfolding post_files
post_files-dry s r [] = refl
post_files-dry s r (f ∷ fs) = refl

decided-dry :
    (app : App) (s : Service) (folder : Text) (answer : Result (List Decision))
    → (decided app s (record { folder = folder; dry_run = true }) answer).1 ≡ []
unfolding decided
decided-dry app s folder (err e) = refl
decided-dry app s folder (ok ds) =
    post_files-dry s (import_result app folder (offer_all app ds no_offer))
      (offer_all app ds no_offer).files

-- the application answered with an error
abbrev turned_away : Result ImportResult → Bool
turned_away (err e) = true
turned_away (ok r) = r.no_match

abbrev flagged_by : ImportResult → List Text
flagged_by r = (if r.no_match && is_radarr r.app then r.folder ∷ [] else []) ++ r.flagged

flagged-add_result :
    (r : ImportResult) (t : Totals) → (add_result r t).flagged ≡ t.flagged ++ flagged_by r
unfolding add_result
flagged-add_result r t = ground (arith, append_assoc t.flagged (r.folder ∷ []) r.flagged)

module _ (tv film : Service) (dry_run : Bool) where
  abbrev ask : App → Service → Text → Result ImportResult
  ask app s folder = (import_folder app s (record { folder = folder; dry_run = dry_run })).0

  abbrev left_by : Result ImportResult → Bool → Bool
  left_by (err e) later = true
  left_by (ok r) later = r.no_match && later

  -- Sonarr fails, or it recognizes nothing and Radarr fails or recognizes nothing.
  abbrev pub needs_human : Text → Bool
  needs_human folder = left_by (ask sonarr tv folder) (turned_away (ask radarr film folder))

  flagged_by-tried :
      (folder : Text) (q p : Result ImportResult × Posts)
      → IsOn sonarr folder q.0
      → IsOn radarr folder p.0
      → flagged_by ((tried_sonarr folder q (tried_radarr folder p)).0)
        ≡ (if left_by q.0 (turned_away p.0) then folder ∷ [] else [])
  unfolding tried_sonarr tried_radarr failed_import after_posts is_radarr
  flagged_by-tried folder (err e, posts) p h k = refl
  flagged_by-tried folder (ok r, posts) (err e, more) h k = ground (arith, h, k)
  flagged_by-tried folder (ok r, posts) (ok r', more) h k = ground (arith, h, k)

  flagged_by-reconcile_folder :
      (folder : Text)
      → flagged_by ((reconcile_folder tv film dry_run folder).0)
        ≡ (if needs_human folder then folder ∷ [] else [])
  unfolding reconcile_folder import_folder
  flagged_by-reconcile_folder folder =
      let req : ImportRequest = record { folder = folder; dry_run = dry_run } in
      flagged_by-tried folder (decided sonarr tv req (tv.decisions folder))
        (decided radarr film req (film.decisions folder))
        (decided-IsOn sonarr tv req (tv.decisions folder))
        (decided-IsOn radarr film req (film.decisions folder))

  -- what the folders came to, and the totals of these
  abbrev pub results_on : List Text → List ImportResult
  results_on [] = []
  results_on (folder ∷ folders) = (reconcile_folder tv film dry_run folder).0 ∷ results_on folders

  flagged-add_results :
      (folders : List Text) (t : Totals)
      → (add_results (results_on folders) t).flagged ≡ t.flagged ++ keep needs_human folders
  unfolding add_results add_result
  flagged-add_results [] t = sym (append-nil t.flagged)
  flagged-add_results (folder ∷ folders) t =
      flagged-add_results folders (add_result ((reconcile_folder tv film dry_run folder).0) t)
      ∙ ap (λ l. l ++ keep needs_human folders)
          (flagged-add_result ((reconcile_folder tv film dry_run folder).0) t
            ∙ ap (λ l. t.flagged ++ l) (flagged_by-reconcile_folder folder))
      ∙ append-one_if (needs_human folder) folder t.flagged (keep needs_human folders)

module _ (size : ImportResult → ℕ) where
  abbrev pub sum_of : List ImportResult → ℕ
  sum_of [] = 0
  sum_of (r ∷ rs) = size r + sum_of rs

imported-add_results :
    (rs : List ImportResult) (t : Totals)
    → (add_results rs t).imported ≡ t.imported + sum_of (λ (r : ImportResult). r.imported) rs
unfolding add_results add_result
imported-add_results [] t = omega arith
imported-add_results (r ∷ rs) t = omega (arith, imported-add_results rs (add_result r t))

map_fst-results :
    (tv film : Service) (dry_run : Bool) (folders : List Text)
    → map (λ (r : ImportResult × Posts). r.0) (map (reconcile_folder tv film dry_run) folders)
      ≡ results_on tv film dry_run folders
map_fst-results tv film dry_run [] = refl
map_fst-results tv film dry_run (folder ∷ folders) =
    ap (λ l. (reconcile_folder tv film dry_run folder).0 ∷ l)
      (map_fst-results tv film dry_run folders)

reconcile_folder-dry :
    (tv film : Service) (folder : Text) → (reconcile_folder tv film true folder).1 ≡ []
unfolding reconcile_folder tried_sonarr tried_radarr after_posts import_folder
reconcile_folder-dry tv film folder = ground (
  arith,
  decided-dry sonarr tv folder (tv.decisions folder),
  decided-dry radarr film folder (film.decisions folder),
)

-- When the torrents are listed the run succeeds, whatever the applications answer: the folders left
-- to a human are, in order, exactly those that Sonarr fails on, or that it recognizes nothing of and
-- Radarr fails on or recognizes nothing of; the imports are those of all folders together; and
-- Jellyfin is asked for a scan exactly when there are imports and the run is not a dry one.
pub reconcile_exact :
    (tv film : Service) (dry_run : Bool) (folders : List Text)
    → (run : Run) × (reconcile tv film dry_run (ok folders) ≡ ok run)
      × (run.totals.flagged ≡ keep (needs_human tv film dry_run) folders)
      × (run.totals.imported
          ≡ sum_of (λ (r : ImportResult). r.imported) (results_on tv film dry_run folders))
      × (run.refreshed ≡ (ltb 0 run.totals.imported && not dry_run))
unfolding reconcile
reconcile_exact tv film dry_run folders = (
  _,
  refl,
  ap (λ rs. (add_results rs no_totals).flagged) (map_fst-results tv film dry_run folders)
      ∙ flagged-add_results tv film dry_run folders no_totals,
  ap (λ rs. (add_results rs no_totals).imported) (map_fst-results tv film dry_run folders)
      ∙ imported-add_results (results_on tv film dry_run folders) no_totals
      ∙ omega arith,
  refl,
)

and_false : (b : Bool) → (b && false) ≡ false
and_false true = refl
and_false false = refl

posts-dry :
    (tv film : Service) (folders : List Text)
    → All
        (λ (p : Posts). p ≡ [])
        (map (λ (r : ImportResult × Posts). r.1) (map (reconcile_folder tv film true) folders))
posts-dry tv film [] = tt
posts-dry tv film (folder ∷ folders) =
    (reconcile_folder-dry tv film folder, posts-dry tv film folders)

abbrev PostsNothing : Result Run → Type 0
PostsNothing (err e) = Unit
PostsNothing (ok run) = All (λ (p : Posts). p ≡ []) run.posts × (run.refreshed ≡ false)

-- A dry run posts no import for any folder and asks for no scan of the library.
pub reconcile_dry :
    (tv film : Service) (listed : Result (List Text)) → PostsNothing (reconcile tv film true listed)
unfolding reconcile
reconcile_dry tv film (err e) = tt
reconcile_dry tv film (ok folders) = (posts-dry tv film folders, and_false _)
