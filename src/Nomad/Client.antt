-- ===== src/Nomad/Client.antt =====
-- The client itself and its calls that change something: `NewNomadClient`, `ScaleNomadJob`,
-- `DispatchJob` and `StopJob` of shared/client/nomad/nomad.go. The answers of the API are arguments.
use nomad_temporal_jobs.Prelude.{ℕ, Bool, true, List, if◌then◌else◌}
use nomad_temporal_jobs.Prelude.Result.{Result, context}
use nomad_temporal_jobs.Prelude.Text.{Text, codes, is_empty}

pub record ClientConfig : Type 0 where
  pub address : Text
  pub secret_id : Text
  pub ca_cert : Text

-- The variables NOMAD_ADDR, NOMAD_TOKEN and NOMAD_CACERT over the library's configuration.
unfoldable pub new_nomad_client : ClientConfig → Text → Text → Text → ClientConfig
new_nomad_client default_config addr token ca_cert = record {
  address = if is_empty addr then codes "https://nomad.service.consul:4646" else addr;
  secret_id = if is_empty token then default_config.secret_id else token;
  ca_cert = if is_empty ca_cert then default_config.ca_cert else ca_cert;
}

unfoldable pub dispatch_job :
    (Text → List (Text × Text) → Result Text) → Text → List (Text × Text) → Result Text
dispatch_job dispatch job_id meta = context "dispatch job" (dispatch job_id meta)

-- The job is purged.
unfoldable pub stop_job : (Text → Bool → Result (Unit {0})) → Text → Result (Unit {0})
stop_job deregister job_id = context "deregister job" (deregister job_id true)

-- The count of a task group, by the answer of the API.
unfoldable pub scale_nomad_job :
    (Text → Text → ℕ → Result (Unit {0})) → Text → Text → ℕ → Result (Unit {0})
scale_nomad_job scale job group count = context "scale" (scale job group count)
