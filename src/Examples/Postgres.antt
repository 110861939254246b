-- ===== src/Examples/Postgres.antt =====
-- The connection strings of Postgres at concrete inputs.
use nomad_temporal_jobs.Prelude.{◌≡◌, refl, true, some, [], ◌∷◌}
use nomad_temporal_jobs.Prelude.Text.{Text, codes, is_empty}
use nomad_temporal_jobs.Clients.Postgres.{PostgresConfig, conn_string}
use nomad_temporal_jobs.Clients.Postgres.Reader.{read_settings}
use nomad_temporal_jobs.Clients.Postgres.Settings.{
  IsValue, read_settings-conn_string, read_settings-swallows,
}

abbrev config : Text → PostgresConfig
config password = record {
  host = codes "h";
  port = codes "5";
  user = codes "u";
  password = password;
  db_name = codes "d";
  ssl_mode = codes "m";
  ssl_root_cert = [];
}

abbrev secret : PostgresConfig
secret = config (codes "p")

abbrev no_secret : PostgresConfig
no_secret = config []

values :
    IsValue secret.host
    × IsValue secret.port
    × IsValue secret.user
    × IsValue secret.password
    × IsValue secret.db_name
    × IsValue secret.ssl_mode
unfolding is_empty
values = (
  (refl, (refl, tt)),
  (refl, (refl, tt)),
  (refl, (refl, tt)),
  (refl, (refl, tt)),
  (refl, (refl, tt)),
  (refl, (refl, tt)),
)

no_root : is_empty no_secret.ssl_root_cert ≡ true
unfolding is_empty
no_root = refl

read_settings-conn_string_example :
    read_settings (conn_string secret)
    ≡ some (
        (codes "host", codes "h")
        ∷ (codes "port", codes "5")
        ∷ (codes "user", codes "u")
        ∷ (codes "password", codes "p")
        ∷ (codes "dbname", codes "d")
        ∷ (codes "sslmode", codes "m")
        ∷ [])
unfolding is_empty
read_settings-conn_string_example =
    read_settings-conn_string secret values.0 values.1 values.2 values.3 values.4 values.5 tt

read_settings-swallows_example :
    read_settings (conn_string no_secret)
    ≡ some (
        (codes "host", codes "h")
        ∷ (codes "port", codes "5")
        ∷ (codes "user", codes "u")
        ∷ (codes "password", codes "dbname=d")
        ∷ (codes "sslmode", codes "m")
        ∷ [])
read_settings-swallows_example =
    read_settings-swallows no_secret values.0 values.1 values.2 refl values.4.1 values.5 no_root
