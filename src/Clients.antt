-- ===== src/Clients.antt =====
-- The clients of services over HTTP: shared/client/sonarcloud/, shared/client/forgejo/ and
-- shared/client/consul/. A request is answered by an error or by a response; decoding a JSON body is
-- a parameter.
pub mod SonarCloud
pub mod Forgejo
pub mod Consul
pub mod Postgres
use nomad_temporal_jobs.Prelude.{ℕ, Bool, ◌&&◌, leb, ltb}
use nomad_temporal_jobs.Prelude.Text.{Text}

pub record Response : Type 0 where
  pub status_code : ℕ
  pub body : Text

-- 200 to 299
unfoldable pub is_success : ℕ → Bool
is_success status = leb 200 status && ltb status 300
