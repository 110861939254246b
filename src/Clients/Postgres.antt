-- ===== src/Clients/Postgres.antt =====
-- The client of Postgres: shared/client/postgres/postgres.go. The driver is a record of its answers;
-- beside a result stand the calls, in order.
pub mod Closed
pub mod Reader
pub mod Settings
use nomad_temporal_jobs.Prelude.{Bool, List, [], ◌∷◌, ◌++◌, if◌then◌else◌}
use nomad_temporal_jobs.Prelude.Result.{Result, Failure, wrap, ok, err, context}
use nomad_temporal_jobs.Prelude.Text.{Text, codes, is_empty}

pub record PostgresConfig : Type 0 where
  pub host : Text
  pub port : Text
  pub user : Text
  pub password : Text
  pub db_name : Text
  pub ssl_mode : Text
  pub ssl_root_cert : Text

pub data DbCall : Type 0 where
  open_pool : Text → DbCall
  ping close_pool close_rows : DbCall
  query exec : Text → DbCall

-- The rows of a query, each of which may fail to be read, and the error of the iteration.
pub record Rows : Type 0 where
  pub names : List (Result Text)
  pub ending : Result (Unit {0})

pub record Driver : Type 0 where
  pub opened : Text → Result (Unit {0})
  pub pinged : Text → Result (Unit {0})
  pub queried : Text → Result Rows
  pub executed : Text → Result (Unit {0})

unfoldable pub conn_string : PostgresConfig → Text
conn_string c =
    let settings =
      codes "host="
      ++ c.host
      ++ codes " port="
      ++ c.port
      ++ codes " user="
      ++ c.user
      ++ codes " password="
      ++ c.password
      ++ codes " dbname="
      ++ c.db_name
      ++ codes " sslmode="
      ++ c.ssl_mode in
    if is_empty c.ssl_root_cert
    then settings
    else settings ++ codes " sslrootcert=" ++ c.ssl_root_cert

-- the configuration pointed at a database
unfoldable pub with_db : PostgresConfig → Text → PostgresConfig
with_db c dbname = record c { db_name = dbname }

unfoldable pub list_query : Text
list_query =
    codes
      "SELECT datname FROM pg_database WHERE datistemplate = false AND datallowconn = true ORDER BY datname"

unfoldable pub no_names : Result (Unit {0}) → Result (List Text)
no_names (ok u) = ok []
no_names (err e) = err (wrap "iterate databases" e)

unfoldable pub name_before : Text → Result (List Text) → Result (List Text)
name_before name (ok rest) = ok (name ∷ rest)
name_before name (err e) = err e

-- the rows one after the other; the first that cannot be read ends the reading
unfoldable pub scan_names : List (Result Text) → Result (Unit {0}) → Result (List Text)
unfolding no_names name_before
scan_names [] ending = no_names ending
scan_names (err e ∷ names) ending = err (wrap "scan database name" e)
scan_names (ok name ∷ names) ending = name_before name (scan_names names ending)

module _ (d : Driver) where
  -- A pool that does not answer is closed again.
  unfoldable pub ping_pool : Text → Result (Unit {0}) → Result Text × List DbCall
  ping_pool conn (ok u) = (ok conn, open_pool conn ∷ ping ∷ [])
  ping_pool conn (err e) = (err (wrap "ping postgres" e), open_pool conn ∷ ping ∷ close_pool ∷ [])

  unfoldable pub open_answered : Text → Result (Unit {0}) → Result Text × List DbCall
  unfolding ping_pool
  open_answered conn (ok u) = ping_pool conn (d.pinged conn)
  open_answered conn (err e) = (err (wrap "connect to postgres" e), [])

  -- The pool, as its connection string.
  unfoldable pub new_postgres_db : PostgresConfig → Result Text × List DbCall
  unfolding open_answered conn_string
  new_postgres_db cfg = open_answered (conn_string cfg) (d.opened (conn_string cfg))

  unfoldable pub read_rows : Result Rows → List DbCall → Result (List Text) × List DbCall
  unfolding scan_names
  read_rows (err e) calls = (err (wrap "list databases" e), calls)
  read_rows (ok rows) calls = (scan_names rows.names rows.ending, calls ++ (close_rows ∷ []))

  -- Behind the opening: the query, and the closing of the pool.
  unfoldable pub list_in_pool : Result Text × List DbCall → Result (List Text) × List DbCall
  unfolding read_rows list_query
  list_in_pool (err e, calls) = (err (wrap "connect" e), calls)
  list_in_pool (ok conn, calls) =
      let (r, calls') = read_rows (d.queried conn) (calls ++ (query list_query ∷ [])) in
      (r, calls' ++ (close_pool ∷ []))

  unfoldable pub list_database_names : PostgresConfig → Result (List Text) × List DbCall
  unfolding list_in_pool new_postgres_db
  list_database_names cfg = list_in_pool (new_postgres_db cfg)

  unfoldable pub list_databases : PostgresConfig → Result (List Text) × List DbCall
  unfolding list_database_names with_db
  list_databases cfg = list_database_names (with_db cfg (codes "postgres"))

  unfoldable pub vacuum_in_pool : Result Text × List DbCall → Result (Unit {0}) × List DbCall
  vacuum_in_pool (err e, calls) = (err (wrap "connect to" e), calls)
  vacuum_in_pool (ok conn, calls) = (
    context "vacuum" (d.executed conn),
    calls ++ (exec (codes "VACUUM (ANALYZE)") ∷ close_pool ∷ []),
  )

  unfoldable pub vacuum_analyze : PostgresConfig → Text → Result (Unit {0}) × List DbCall
  unfolding vacuum_in_pool new_postgres_db with_db
  vacuum_analyze cfg dbname = vacuum_in_pool (new_postgres_db (with_db cfg dbname))
