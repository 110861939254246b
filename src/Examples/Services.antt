-- ===== src/Examples/Services.antt =====
-- Media imports and the renewal of a SonarCloud token at concrete inputs.
use nomad_temporal_jobs.Prelude.{
  ◌≡◌, refl, ap, ltb, Bool, true, false, ◌&&◌, not, none, some, List, [], ◌∷◌, map, keep, arith,
}
use nomad_temporal_jobs.Prelude.Result.{Result, external, ok, err, is_ok}
use nomad_temporal_jobs.Prelude.Text.{
  Text, codes, text_eq_refl, contains, has_prefix, trim_space, is_space, cut, is_empty,
  has_substring,
}
use nomad_temporal_jobs.MediaImport.Arr.{Decision, sonarr, ImportResult, Service, import_folder}
use nomad_temporal_jobs.MediaImport.Arr.Exact.{summary, posting, wanted_files, import_folder_exact}
use nomad_temporal_jobs.MediaImport.Reconcile.{Run, reconcile}
use nomad_temporal_jobs.MediaImport.Reconcile.Outcome.{
  needs_human, sum_of, results_on, reconcile_exact,
}
use nomad_temporal_jobs.Runner.Dispatch.{split_repo}
use nomad_temporal_jobs.Renewal.Sonar.{
  Services, World, mint, set_secret, revoke, expiry_of, token_prefix, token_name,
  renew_sonar_cloud_token,
}
use nomad_temporal_jobs.Renewal.Sonar.Calls.{prior, renew_sonar_cloud_token_calls}
use nomad_temporal_jobs.Renewal.Sonar.Retry.{IsSonar, behind, renew_sonar_cloud_token_stuck}

abbrev episode : Decision
episode = record {
  path = codes "/d/s01e01.mkv";
  series = some 4;
  movie = none;
  episodes = 9 ∷ [];
  quality = [];
  languages = [];
  release_group = [];
  indexer_flags = 0;
  rejections = [];
}

abbrev sonarr_service : Service
sonarr_service = record { decisions = λ folder. ok (episode ∷ []); manual_import = λ files. ok tt }

abbrev radarr_service : Service
radarr_service = record {
  decisions = λ folder. err (external "down");
  manual_import = λ files. ok tt;
}

abbrev show : Text
show = codes "show"

import_folder_exact_example :
    import_folder sonarr sonarr_service (record { folder = show; dry_run = false })
    ≡ posting sonarr_service.manual_import false
        (summary sonarr show (episode ∷ []))
        (wanted_files sonarr (episode ∷ []))
import_folder_exact_example =
    import_folder_exact sonarr sonarr_service (record { folder = show; dry_run = false })
      (episode ∷ []) refl

reconcile_exact_example :
    (run : Run) × (reconcile sonarr_service radarr_service false (ok (show ∷ [])) ≡ ok run)
    × (run.totals.flagged ≡ keep (needs_human sonarr_service radarr_service false) (show ∷ []))
    × (run.totals.imported
        ≡ sum_of
            (λ (r : ImportResult). r.imported)
            (results_on sonarr_service radarr_service false (show ∷ [])))
    × (run.refreshed ≡ (ltb 0 run.totals.imported && not false))
reconcile_exact_example = reconcile_exact sonarr_service radarr_service false (show ∷ [])

-- the services over the names of the tokens; `written` is GitHub's answer
abbrev minted_on : Bool → Text → List Text → Result Text × List Text
minted_on true name s = (err (external "name exists"), s)
minted_on false name s = (ok (codes "tok"), name ∷ s)

module _ (written : Result (Unit {0})) where
  abbrev services : Services (List Text)
  services = record {
    mint_workflow_token = λ owner repo s. (ok (codes "ghs", 0), s);
    set_repo_secret = λ owner repo name value s. (written, s);
    mint_token = λ name expiry s. minted_on (contains s name) name s;
    list_token_names = λ s. (ok s, s);
    revoke_token = λ name s. (ok tt, s);
  }

  abbrev There : List Text → Text → Type 0
  There s name = contains s name ≡ true

  is_there :
      (b : Bool) (name : Text) (s : List Text)
      → is_ok ((minted_on b name s).0) ≡ true
      → contains (minted_on b name s).1 name ≡ true
  unfolding contains
  is_there true name s h = ground (arith, h)
  is_there false name s h = ground (arith, text_eq_refl name)

  stays :
      (b : Bool) (name other : Text) (s : List Text)
      → contains s other ≡ true
      → contains (minted_on b name s).1 other ≡ true
  unfolding contains
  stays true name other s h = h
  stays false name other s h = ground (arith, h)

  services-IsSonar : IsSonar services There
  services-IsSonar = record {
    minted = λ name e s h. is_there (contains s name) name s h;
    unique = λ name e s h. ap (λ b. is_ok ((minted_on b name s).0)) h;
    mint_keeps = λ name other e s h. stays (contains s name) name other s h;
    secret_apart = λ owner repo secret token name s h. h;
  }

abbrev empty : World (List Text)
empty = record { outside = []; calls = [] }

splits : split_repo (codes "o/r") ≡ some (codes "o", codes "r")
unfolding split_repo trim_space is_space cut is_empty has_substring has_prefix
splits = refl

abbrev down : Result (Unit {0})
down = err (external "github down")

none_there :
    (services down).mint_token (token_name (codes "o") (codes "r") (codes "17")) (expiry_of 17 0) []
    ≡ (ok (codes "tok"), token_name (codes "o") (codes "r") (codes "17") ∷ [])
unfolding contains
none_there = refl

renew_sonar_cloud_token_stuck_example :
    is_ok (
      (renew_sonar_cloud_token
        (services down)
        true
        (codes "SONAR")
        17
        0
        (codes "17")
        (codes "o/r")
        (behind (services down) (codes "SONAR") (codes "o/r") (codes "17") 17 0 3 empty)).0)
    ≡ false
renew_sonar_cloud_token_stuck_example =
    renew_sonar_cloud_token_stuck (services down) (There down) (services-IsSonar down)
      (codes "SONAR") (codes "o/r") (codes "17") 17 0 (codes "o") (codes "r") (codes "tok") empty 2
      splits (ap (λ r. r.0) none_there) refl

abbrev kept : Text
kept = token_name (codes "o") (codes "r") (codes "17")

renew_sonar_cloud_token_calls_example :
    (is_ok (
        (renew_sonar_cloud_token
          (services (ok tt))
          true
          (codes "SONAR")
          17
          0
          (codes "17")
          (codes "o/r")
          empty).0)
      ≡ true)
    × ((renew_sonar_cloud_token
          (services (ok tt))
          true
          (codes "SONAR")
          17
          0
          (codes "17")
          (codes "o/r")
          empty).1.calls
        ≡ mint kept
          ∷ set_secret (codes "o") (codes "r") (codes "SONAR") (codes "tok")
          ∷ map revoke
              (prior (services (ok tt)) (token_prefix (codes "o") (codes "r")) kept (kept ∷ [])))
renew_sonar_cloud_token_calls_example =
    renew_sonar_cloud_token_calls (services (ok tt)) (codes "SONAR") (codes "o/r") (codes "17") 17 0
      (codes "o") (codes "r") (codes "tok") (kept ∷ []) empty splits (ap (λ r. r.0) none_there) refl
      (ap (λ r. ok r.1) none_there)
