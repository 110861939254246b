-- ===== src/MediaImport/Arr.antt =====
-- Offering one folder to Sonarr or Radarr: `importable`, `SonarrImport` and `RadarrImport` of
-- mediaimport/activities/activities.go. The two loops differ in what they recognize and in the file
-- that they build. The answers of the applications are parameters; beside an import's result stand
-- the imports that it posted.
pub mod Exact
use nomad_temporal_jobs.Prelude.{
  ℕ, suc, Bool, true, false, ◌&&◌, not, Option, none, some, List, [], ◌∷◌, ◌++◌, length,
  if◌then◌else◌,
}
use nomad_temporal_jobs.Prelude.Result.{Result, ok, err}
use nomad_temporal_jobs.Prelude.Text.{Text, codes, to_lower, has_substring}

-- The decision on one file: the IDs of the series, of the movie and of the episodes, and the reasons
-- of its rejections.
pub record Decision : Type 0 where
  pub path : Text
  pub series : Option ℕ
  pub movie : Option ℕ
  pub episodes : List ℕ
  pub quality : Text
  pub languages : Text
  pub release_group : Text
  pub indexer_flags : ℕ
  pub rejections : List Text

-- An ID of 0 is left out of the request.
pub record ImportFile : Type 0 where
  pub path : Text
  pub series_id : ℕ
  pub movie_id : ℕ
  pub episode_ids : List ℕ
  pub quality : Text
  pub languages : Text
  pub release_group : Text
  pub indexer_flags : ℕ

pub data App : Type 0 where
  sonarr radarr : App

pub record ImportRequest : Type 0 where
  pub folder : Text
  pub dry_run : Bool

pub record ImportResult : Type 0 where
  pub folder : Text
  pub app : App
  pub imported : ℕ
  pub skipped : ℕ
  pub flagged : List Text
  pub no_match : Bool

overridable : List Text → Bool
overridable [] = true
overridable (r ∷ rs) =
    let rest = overridable rs in
    if not (has_substring (to_lower r) (codes "unexpected considering")) then false else rest

unfoldable pub importable : Decision → Bool
unfolding overridable
importable d = overridable d.rejections

abbrev is_some : Option ℕ → Bool
is_some none = false
is_some (some n) = true

abbrev or_zero : Option ℕ → ℕ
or_zero none = 0
or_zero (some n) = n

abbrev has_episodes : List ℕ → Bool
has_episodes [] = false
has_episodes (e ∷ es) = true

-- What an application recognizes a file as, and the file that it is asked to import.
unfoldable pub is_recognized : App → Decision → Bool
is_recognized sonarr d = is_some d.series && has_episodes d.episodes
is_recognized radarr d = is_some d.movie

base_file : Decision → ImportFile
base_file d = record {
  path = d.path;
  series_id = 0;
  movie_id = 0;
  episode_ids = [];
  quality = d.quality;
  languages = d.languages;
  release_group = d.release_group;
  indexer_flags = d.indexer_flags;
}

unfoldable pub import_file : App → Decision → ImportFile
unfolding base_file
import_file sonarr d = record (base_file d) {
  series_id = or_zero d.series;
  episode_ids = d.episodes;
}
import_file radarr d = record (base_file d) { movie_id = or_zero d.movie }

-- The variables of the loop.
pub record Offer : Type 0 where
  pub files : List ImportFile
  pub any_match : Bool
  pub skipped : ℕ

abbrev pub no_offer : Offer
no_offer = record { files = []; any_match = false; skipped = 0 }

unfoldable pub offer_one : App → Decision → Offer → Offer
offer_one app d o =
    if not (is_recognized app d)
    then o
    else if not (importable d)
    then record o { any_match = true; skipped = suc o.skipped }
    else record o { any_match = true; files = o.files ++ (import_file app d ∷ []) }

unfoldable pub offer_all : App → List Decision → Offer → Offer
offer_all app [] o = o
offer_all app (d ∷ ds) o = offer_all app ds (offer_one app d o)

-- An application, as it answers.
pub record Service : Type 0 where
  pub decisions : Text → Result (List Decision)
  pub manual_import : List ImportFile → Result (Unit {0})

unfoldable pub import_result : App → Text → Offer → ImportResult
import_result app folder o = record {
  folder = folder;
  app = app;
  imported = length o.files;
  skipped = o.skipped;
  flagged = [];
  no_match = not o.any_match;
}

unfoldable pub posted :
    ImportResult
    → List ImportFile
    → Result (Unit {0})
    → Result ImportResult × List (List ImportFile)
posted r files (ok u) = (ok r, files ∷ [])
posted r files (err e) = (err e, files ∷ [])

-- `len(files) > 0 && !req.DryRun`
unfoldable pub post_files :
    Service → Bool → ImportResult → List ImportFile → Result ImportResult × List (List ImportFile)
unfolding posted
post_files s dry_run r [] = (ok r, [])
post_files s true r (f ∷ fs) = (ok r, [])
post_files s false r (f ∷ fs) = posted r (f ∷ fs) (s.manual_import (f ∷ fs))

unfoldable pub decided :
    App
    → Service
    → ImportRequest
    → Result (List Decision)
    → Result ImportResult × List (List ImportFile)
unfolding offer_all import_result post_files
decided app s req (err e) = (err e, [])
decided app s req (ok ds) =
    let o = offer_all app ds no_offer in
    post_files s req.dry_run (import_result app req.folder o) o.files

-- `SonarrImport` and `RadarrImport`
unfoldable pub import_folder :
    App → Service → ImportRequest → Result ImportResult × List (List ImportFile)
unfolding decided
import_folder app s req = decided app s req (s.decisions req.folder)
