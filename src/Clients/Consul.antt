-- ===== src/Clients/Consul.antt =====
-- The client of Consul: shared/client/consul/consul.go, and the configuration of the runner scaler
-- that is read from it: `LoadConfig` of runnerscaler/activities/activities.go. The library's client
-- is an answer; a token of none is the one that the library takes from the environment.
use nomad_temporal_jobs.Prelude.{Option, none, some, if◌then◌else◌}
use nomad_temporal_jobs.Prelude.Result.{Result, non_retryable, ok, err, context, ◌>>=◌}
use nomad_temporal_jobs.Prelude.Text.{Text, codes, is_empty}
use nomad_temporal_jobs.Vault.{Kv, read_kv_field}

abbrev or_default : Text → Text → Text
or_default s d = if is_empty s then d else s

-- A client, by the token that its configuration names.
abbrev pub ConsulClient : Type 0
ConsulClient = Option Text

created : Result (Unit {0}) → Option Text → Result ConsulClient
created client token = context "create consul client" client >>= λ u. ok token

-- With a client of Vault the token is a field of a secret, at the path and under the name that the
-- environment gives, or the usual ones.
unfoldable pub new_consul_client :
    {S : Type 0} → Result (Unit {0}) → Text → Text → Option (Kv S) → S → Result ConsulClient
unfolding created read_kv_field
new_consul_client client path field none s = created client none
new_consul_client client path field (some kv) s =
    context "fetch consul token from vault"
      (read_kv_field kv (or_default path (codes "consul/nomad-client-token"))
        (or_default field (codes "token")) s).0
    >>= λ token. created client (some token)

-- the pair at a key, if there is one
unfoldable pub kv_get : Result (Option Text) → Result (Option Text)
kv_get got = context "consul kv get" got

decoded_config : {A : Type 0} → (Text → Result A) → Option Text → Result A
decoded_config decode none = err (non_retryable "ConfigMissing")
decoded_config decode (some raw) = elim (decode raw) [
  | ok cfg ↦ ok cfg
  | err e ↦ err (non_retryable "InvalidConfig")
]

-- A key that is missing and a value that is no configuration are final; an error of Consul is not.
unfoldable pub load_config : {A : Type 0} → (Text → Result A) → Result (Option Text) → Result A
unfolding kv_get decoded_config
load_config decode got = kv_get got >>= decoded_config decode
