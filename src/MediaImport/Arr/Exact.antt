-- ===== src/MediaImport/Arr/Exact.antt =====
-- What an import of a folder posts and answers.
use nomad_temporal_jobs.Prelude.{
  ◌+◌, ◌≡◌, refl, sym, Bool, true, false, ◌&&◌, ◌||◌, not, List, [], ◌∷◌, ◌++◌, map, keep, any,
  count, length, arith, if◌then◌else◌, append_assoc, append-nil,
}
use nomad_temporal_jobs.Prelude.Result.{Result, ok, ◌>>=◌, Result-cases}
use nomad_temporal_jobs.Prelude.Text.{Text}
use nomad_temporal_jobs.MediaImport.Arr.{
  Decision, App, ImportFile, ImportRequest, ImportResult, Service, Offer, no_offer, is_recognized,
  importable, import_file, offer_one, offer_all, import_result, posted, post_files, decided,
  import_folder,
}

-- the application recognizes the file and nothing that cannot be overridden stands against it
abbrev pub is_wanted : App → Decision → Bool
is_wanted app d = is_recognized app d && importable d

abbrev pub is_blocked : App → Decision → Bool
is_blocked app d = is_recognized app d && not (importable d)

abbrev pub wanted_files : App → List Decision → List ImportFile
wanted_files app ds = map (import_file app) (keep (is_wanted app) ds)

module _ (app : App) where
  files-offer_all :
      (ds : List Decision) (o : Offer) → (offer_all app ds o).files ≡ o.files ++ wanted_files app ds
  unfolding offer_all offer_one
  files-offer_all [] o = sym (append-nil o.files)
  files-offer_all (d ∷ ds) o = ground (
    arith,
    files-offer_all ds (offer_one app d o),
    append_assoc o.files (import_file app d ∷ []) (wanted_files app ds),
  )

  skipped-offer_all :
      (ds : List Decision) (o : Offer)
      → (offer_all app ds o).skipped ≡ o.skipped + count (is_blocked app) ds
  unfolding offer_all offer_one
  skipped-offer_all [] o = omega arith
  skipped-offer_all (d ∷ ds) o = ground (arith, skipped-offer_all ds (offer_one app d o))

  any_match-offer_all :
      (ds : List Decision) (o : Offer)
      → (offer_all app ds o).any_match ≡ (o.any_match || any (is_recognized app) ds)
  unfolding offer_all offer_one
  any_match-offer_all [] o = ground arith
  any_match-offer_all (d ∷ ds) o = ground (arith, any_match-offer_all ds (offer_one app d o))

-- the answer to a folder of which the decisions are known
abbrev pub summary : App → Text → List Decision → ImportResult
summary app folder ds = record {
  folder = folder;
  app = app;
  imported = count (is_wanted app) ds;
  skipped = count (is_blocked app) ds;
  flagged = [];
  no_match = not (any (is_recognized app) ds);
}

-- nothing is posted on a dry run or without files, else all the files at once
abbrev pub posting :
    (List ImportFile → Result (Unit {0}))
    → Bool
    → ImportResult
    → List ImportFile
    → Result ImportResult × List (List ImportFile)
posting post dry_run r [] = (ok r, [])
posting post dry_run r (f ∷ fs) =
    if dry_run then (ok r, []) else ((post (f ∷ fs) >>= λ u. ok r), (f ∷ fs) ∷ [])

length-wanted_files :
    (app : App) (ds : List Decision) → length (wanted_files app ds) ≡ count (is_wanted app) ds
length-wanted_files app [] = refl
length-wanted_files app (d ∷ ds) = ground (arith, length-wanted_files app ds)

import_result-summary :
    (app : App) (folder : Text) (ds : List Decision)
    → import_result app folder (offer_all app ds no_offer) ≡ summary app folder ds
unfolding import_result
import_result-summary app folder ds = ground (
  arith,
  files-offer_all app ds no_offer,
  skipped-offer_all app ds no_offer,
  any_match-offer_all app ds no_offer,
  length-wanted_files app ds,
)

posted-posting :
    (s : Service) (dry_run : Bool) (r : ImportResult) (files : List ImportFile)
    → post_files s dry_run r files ≡ posting s.manual_import dry_run r files
unfolding post_files posted
posted-posting s dry_run r [] = refl
posted-posting s true r (f ∷ fs) = refl
posted-posting s false r (f ∷ fs) = ground (arith, Result-cases (s.manual_import (f ∷ fs)))

-- When the application answers the decisions on a folder, the files posted are exactly those it
-- recognizes without an obstacle, in order and in one request, on a dry run none; and the answer,
-- unless that request fails, counts them, counts the recognized files with an obstacle, and says
-- whether no file was recognized.
pub import_folder_exact :
    (app : App) (s : Service) (req : ImportRequest) (ds : List Decision)
    → s.decisions req.folder ≡ ok ds
    → import_folder app s req
      ≡ posting s.manual_import req.dry_run (summary app req.folder ds) (wanted_files app ds)
unfolding import_folder decided
import_folder_exact app s req ds h = ground (
  arith,
  h,
  files-offer_all app ds no_offer,
  import_result-summary app req.folder ds,
  posted-posting s req.dry_run (summary app req.folder ds) (wanted_files app ds),
)
