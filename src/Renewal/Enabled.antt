-- ===== src/Renewal/Enabled.antt =====
-- Whether SonarCloud tokens are renewed, and how: `configureSonar` of ghtokenrenewer/worker/main.go,
-- and `RenewSonarCloudTokens` of ghtokenrenewer/workflows/renew_sonarcloud.go.
use nomad_temporal_jobs.Prelude.{ℤ, pos, Bool, List, Option, none, some, if◌then◌else◌}
use nomad_temporal_jobs.Prelude.Result.{Result, ok, err}
use nomad_temporal_jobs.Prelude.Text.{Text, codes, is_empty}
use nomad_temporal_jobs.Vault.{Fields, text_field}
use nomad_temporal_jobs.Ssh.Host.Du.{parse_int}
use nomad_temporal_jobs.Clients.SonarCloud.{SonarCloud, new_sonar_cloud}
use nomad_temporal_jobs.Renewal.{Renewals, renew_tokens}

-- The variables of the environment, empty without one.
pub record Environment : Type 0 where
  pub token_vault_path : Text
  pub token_ttl_days : Text
  pub base_url : Text
  pub secret_name : Text

-- The part of the activities' configuration that is filled in; the time to live is in days.
pub record SonarConfig : Type 0 where
  pub sonar : SonarCloud
  pub sonar_secret_name : Text
  pub ttl_days : ℤ

-- `cmp.Or`
or_default : Text → Text → Text
or_default s d = if is_empty s then d else s

-- On a platform whose int has 64 bits; a text that is no number is logged.
unfoldable pub ttl_of : Text → ℤ
unfolding parse_int
ttl_of s = elim (parse_int s) [ some n ↦ n | none ↦ pos 90 ]

with_token : Environment → Text → Option SonarConfig
unfolding or_default ttl_of new_sonar_cloud
with_token env token =
    if is_empty token
    then none
    else some (record {
      sonar = new_sonar_cloud env.base_url token;
      sonar_secret_name = or_default env.secret_name (codes "SONAR_TOKEN");
      ttl_days = ttl_of env.token_ttl_days;
    })

from_secret : Environment → Option Fields → Option SonarConfig
unfolding with_token
from_secret env none = none
from_secret env (some fields) = with_token env (text_field fields (codes "token"))

configured : Environment → Result (Option Fields) → Option SonarConfig
unfolding from_secret
configured env (err e) = none
configured env (ok found) = from_secret env found

-- `none` where the renewal stays off. Reading a path of Vault is a parameter.
unfoldable pub configure_sonar : (Text → Result (Option Fields)) → Environment → Option SonarConfig
unfolding configured or_default
configure_sonar read_kv_maybe env =
    configured env (read_kv_maybe (or_default env.token_vault_path (codes "sonarcloud/token")))

unfoldable pub renew_sonar_cloud_tokens :
    {T : Type 0}
    → (Text → Result T)
    → Result (List Text)
    → Result (Renewals T × Bool × Result (Unit {0}))
unfolding renew_tokens
renew_sonar_cloud_tokens renew listed = renew_tokens renew listed
