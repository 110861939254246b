-- ===== src/Clients/Forgejo.antt =====
-- The client of a Forgejo instance: `New` and `get` of shared/client/forgejo/forgejo.go.
use nomad_temporal_jobs.Prelude.{◌++◌, if◌then◌else◌}
use nomad_temporal_jobs.Prelude.Result.{Result, external, ok, err, context, ◌>>=◌}
use nomad_temporal_jobs.Prelude.Text.{Text, codes, is_empty, trim_right}
use nomad_temporal_jobs.Clients.{Response, is_success}

pub record Forgejo : Type 0 where
  pub base_url : Text
  pub token : Text

unfoldable pub new : Text → Text → Result Forgejo
new base_url token =
    if is_empty base_url
    then err (external "forgejo client: empty base URL")
    else if is_empty token
    then err (external "forgejo client: empty token")
    else ok (record { base_url = trim_right b'/' base_url; token = token })

-- A GET of an address with an authorization header.
unfoldable pub get :
    {A : Type 0} → (Text → Result A) → (Text → Text → Result Response) → Forgejo → Text → Result A
get decode send f path =
    context "request" (send (f.base_url ++ path) (codes "token " ++ f.token)) >>= λ resp.
    if is_success resp.status_code
    then context "decode" (decode resp.body)
    else err (external "unexpected status")
