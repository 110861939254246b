-- ===== src/MediaImport/Http.antt =====
-- The calls of the media applications: `New`, `Validate`, `delugeLogin`, `delugeCall`,
-- `arrDecisions`, `arrManualImport` and `JellyfinRefresh` of mediaimport/activities/activities.go.
-- Sending a request is a parameter, as is the JSON form of bodies; the values of a query are its
-- pairs.
use nomad_temporal_jobs.Prelude.{◌==◌, Bool, not, ◌||◌, ◌&&◌, List, [], ◌∷◌, ◌++◌, if◌then◌else◌}
use nomad_temporal_jobs.Prelude.Result.{Result, external, ok, err, context, ◌>>=◌}
use nomad_temporal_jobs.Prelude.Text.{Text, codes, is_empty}
use nomad_temporal_jobs.Clients.{Response}
use nomad_temporal_jobs.MediaImport.Arr.{Decision, ImportFile, Service}

pub record Config : Type 0 where
  pub sonarr_addr : Text
  pub radarr_addr : Text
  pub deluge_addr : Text
  pub jellyfin_addr : Text

-- The Vault handle is there.
unfoldable pub validate : Config → Result (Unit {0})
validate c =
    if is_empty c.sonarr_addr
      || is_empty c.radarr_addr
      || (is_empty c.deluge_addr || is_empty c.jellyfin_addr)
    then err (external "address is required")
    else ok tt

-- What the credentials of the activities are.
pub record Activities : Type 0 where
  pub cfg : Config
  pub sonarr_key : Text
  pub radarr_key : Text
  pub deluge_pass : Text
  pub jellyfin_key : Text

-- A field of a secret of Vault, by its path and its name.
unfoldable pub new : (Text → Text → Result Text) → Config → Result Activities
unfolding validate
new read_kv_field cfg = context "invalid config" (validate cfg) >>= λ u.
    context "read sonarr api key" (read_kv_field (codes "media-import") (codes "sonarr_api_key"))
    >>= λ sonarr_key.
        context "read radarr api key"
          (read_kv_field (codes "media-import") (codes "radarr_api_key"))
        >>= λ radarr_key.
            context "read deluge password" (read_kv_field (codes "deluge") (codes "web_password"))
            >>= λ deluge_pass.
                context "read jellyfin api key" (read_kv_field (codes "jellyfin") (codes "api_key"))
                >>= λ jellyfin_key. ok (record {
                  cfg = cfg;
                  sonarr_key = sonarr_key;
                  radarr_key = radarr_key;
                  deluge_pass = deluge_pass;
                  jellyfin_key = jellyfin_key;
                })

pub record HttpRequest : Type 0 where
  pub url : Text
  pub query : List (Text × Text)
  pub headers : List (Text × Text)
  pub body : Text

module _ (send : HttpRequest → Result Response) where
  unfoldable pub arr_decisions :
      (Text → Result (List Decision)) → Text → Text → Text → Result (List Decision)
  arr_decisions decode addr key folder =
      context "manualimport GET" (
        send (record {
          url = addr ++ codes "/api/v3/manualimport";
          query =
              (codes "folder", codes "/data/torrents/" ++ folder)
              ∷ (codes "filterExistingFiles", codes "true")
              ∷ [];
          headers = (codes "X-Api-Key", key) ∷ [];
          body = [];
        }))
      >>= λ resp.
          if not (resp.status_code == 200)
          then err (external "manualimport GET: status")
          else context "decode manualimport" (decode resp.body)

  -- `encode` is the body that names a copying import of the files.
  unfoldable pub arr_manual_import :
      (List ImportFile → Result Text) → Text → Text → List ImportFile → Result (Unit {0})
  arr_manual_import encode addr key files =
      context "marshal ManualImport" (encode files) >>= λ body.
      context "ManualImport POST" (
        send (record {
          url = addr ++ codes "/api/v3/command";
          query = [];
          headers =
              (codes "X-Api-Key", key) ∷ (codes "Content-Type", codes "application/json") ∷ [];
          body = body;
        }))
      >>= λ resp.
          if not (resp.status_code == 200) && not (resp.status_code == 201)
          then err (external "ManualImport POST: status")
          else ok tt

  -- The two calls of an application, as the imports use them.
  unfoldable pub service_of :
      (Text → Result (List Decision)) → (List ImportFile → Result Text) → Text → Text → Service
  unfolding arr_decisions arr_manual_import
  service_of decode encode addr key = record {
    decisions = arr_decisions decode addr key;
    manual_import = arr_manual_import encode addr key;
  }

  unfoldable pub deluge_call : {A : Type 0} → (Text → Result A) → Text → Result Text → Result A
  deluge_call decode addr body = context "marshal deluge request" body >>= λ body.
      context "deluge" (
        send (record {
          url = addr ++ codes "/json";
          query = [];
          headers = (codes "Content-Type", codes "application/json") ∷ [];
          body = body;
        }))
      >>= λ resp.
          if not (resp.status_code == 200)
          then err (external "deluge: status")
          else context "decode deluge" (decode resp.body)

  -- `decode` reads whether the password was accepted.
  unfoldable pub deluge_login : (Text → Result Bool) → Text → Result Text → Result (Unit {0})
  unfolding deluge_call
  deluge_login decode addr body = deluge_call decode addr body >>= λ accepted.
      if not accepted then err (external "deluge auth.login rejected the password") else ok tt

  unfoldable pub jellyfin_refresh : Text → Text → Result (Unit {0})
  jellyfin_refresh addr authorization =
      context "jellyfin refresh" (
        send (record {
          url = addr ++ codes "/Library/Refresh";
          query = [];
          headers = (codes "Authorization", authorization) ∷ [];
          body = [];
        }))
      >>= λ resp.
          if not (resp.status_code == 204) && not (resp.status_code == 200)
          then err (external "jellyfin refresh: status")
          else ok tt
