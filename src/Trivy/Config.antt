-- ===== src/Trivy/Config.antt =====
-- The configuration of the scanner and the program that it runs: `Config`, `New` and `execTrivy` of
-- trivyscan/activities/activities.go.
use nomad_temporal_jobs.Prelude.{List, [], ◌∷◌, if◌then◌else◌}
use nomad_temporal_jobs.Prelude.Result.{Result, external, ok, err, context, ◌>>=◌}
use nomad_temporal_jobs.Prelude.Text.{Text, codes, is_empty}
use nomad_temporal_jobs.Clients.Postgres.{PostgresConfig, Driver, new_postgres_db}

pub record Config : Type 0 where
  pub trivy_server_addr : Text
  pub db : PostgresConfig

unfoldable pub validate : Config → Result (Unit {0})
validate c =
    if is_empty c.trivy_server_addr
    then err (external "TrivyServerAddr is required")
    else if is_empty c.db.host
    then err (external "DBHost is required")
    else if is_empty c.db.user
    then err (external "DBUser is required")
    else if is_empty c.db.password
    then err (external "DBPassword is required")
    else ok tt

-- The connection to the database, where the configuration is valid and the Nomad client is there.
unfoldable pub new : Result (Unit {0}) → Driver → Config → Result Text
unfolding validate new_postgres_db
new nomad d cfg = context "invalid config" (validate cfg) >>= λ u.
    context "create nomad client" nomad >>= λ v. (new_postgres_db d cfg.db).0

-- the arguments of the program
unfoldable pub trivy_args : Text → Text → List Text
trivy_args image server_addr =
    codes "image"
    ∷ codes "--server"
    ∷ server_addr
    ∷ codes "--format"
    ∷ codes "json"
    ∷ codes "--timeout"
    ∷ codes "10m"
    ∷ codes "--scanners"
    ∷ codes "vuln"
    ∷ image
    ∷ []
