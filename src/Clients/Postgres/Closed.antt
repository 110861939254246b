-- ===== src/Clients/Postgres/Closed.antt =====
-- The pools and the names that the Postgres client leaves.
use nomad_temporal_jobs.Prelude.{
  ◌≡◌, refl, arith, Bool, true, false, List, [], ◌∷◌, map, count, inl, inr,
}
use nomad_temporal_jobs.Prelude.Result.{Result, ok, err, Result-cases}
use nomad_temporal_jobs.Prelude.Text.{Text, codes}
use nomad_temporal_jobs.Clients.Postgres.{
  no_names, name_before, PostgresConfig, DbCall, open_pool, close_pool, Rows, Driver, conn_string,
  with_db, scan_names, ping_pool, open_answered, new_postgres_db, read_rows, list_in_pool,
  list_database_names, list_databases, vacuum_in_pool, vacuum_analyze,
}

abbrev is_open : DbCall → Bool
is_open (open_pool conn) = true
is_open _ = false

abbrev is_close : DbCall → Bool
is_close close_pool = true
is_close _ = false

-- as many pools closed as opened
abbrev pub IsBalanced : List DbCall → Type 0
IsBalanced calls = count is_open calls ≡ count is_close calls

module _ (d : Driver) (cfg : PostgresConfig) where
  listed-IsBalanced :
      (conn : Text) (o p : Result (Unit {0})) (q : Result Rows)
      → d.opened conn ≡ o
      → d.pinged conn ≡ p
      → d.queried conn ≡ q
      → IsBalanced (list_in_pool d (open_answered d conn (d.opened conn))).1
  unfolding list_in_pool open_answered ping_pool read_rows
  listed-IsBalanced conn (err e) p q ho hp hq = rw ho refl
  listed-IsBalanced conn (ok u) (err e) q ho hp hq = rw (ho, hp) refl
  listed-IsBalanced conn (ok u) (ok v) (err e) ho hp hq = rw (ho, hp, hq) refl
  listed-IsBalanced conn (ok u) (ok v) (ok rows) ho hp hq = rw (ho, hp, hq) refl

  vacuum-IsBalanced :
      (conn : Text) (o p : Result (Unit {0}))
      → d.opened conn ≡ o
      → d.pinged conn ≡ p
      → IsBalanced (vacuum_in_pool d (open_answered d conn (d.opened conn))).1
  unfolding vacuum_in_pool open_answered ping_pool
  vacuum-IsBalanced conn (err e) p ho hp = rw ho refl
  vacuum-IsBalanced conn (ok u) (err e) ho hp = rw (ho, hp) refl
  vacuum-IsBalanced conn (ok u) (ok v) ho hp = rw (ho, hp) refl

  scan_names-ok :
      (read : List (Result Text)) (ending : Result (Unit {0})) (names : List Text)
      → scan_names read ending ≡ ok names
      → (read ≡ map ok names) × (ending ≡ ok tt)
  unfolding scan_names no_names name_before
  scan_names-ok [] (ok u) names h = ground (arith, h)
  scan_names-ok [] (err e) names h = ground (arith, h)
  scan_names-ok (err e ∷ read) ending names h = ground (arith, h)
  scan_names-ok (ok name ∷ read) ending names h = elim (Result-cases (scan_names read ending)) [
    | inl (rest, p) ↦ ground (arith, h, p, scan_names-ok read ending rest p)
    | inr (e, p) ↦ ground (arith, h, p)
  ]

  -- the rows that a list of names stands for
  abbrev IsWholeAnswer : List Text → Result Rows → Type 0
  IsWholeAnswer names (err e) = ⊥
  IsWholeAnswer names (ok rows) = (rows.names ≡ map ok names) × (rows.ending ≡ ok tt)

  listed-whole :
      (conn : Text) (names : List Text) (o p : Result (Unit {0})) (q : Result Rows)
      → d.opened conn ≡ o
      → d.pinged conn ≡ p
      → d.queried conn ≡ q
      → (list_in_pool d (open_answered d conn (d.opened conn))).0 ≡ ok names
      → IsWholeAnswer names q
  unfolding list_in_pool open_answered ping_pool read_rows
  listed-whole conn names (err e) p q ho hp hq h = ground (arith, h, ho)
  listed-whole conn names (ok u) (err e) q ho hp hq h = ground (arith, h, ho, hp)
  listed-whole conn names (ok u) (ok v) (err e) ho hp hq h = ground (arith, h, ho, hp, hq)
  listed-whole conn names (ok u) (ok v) (ok rows) ho hp hq h =
      scan_names-ok rows.names rows.ending names (ground (arith, h, ho, hp, hq))

  -- Whatever the driver answers, listing the databases and a VACUUM of one close each pool that they
  -- open, and a listing that succeeds returns the names of all rows of its query, in order, each of
  -- which could be read, with no error at the end of the iteration.
  pub list_databases-IsBalanced :
      (dbname : Text)
      → IsBalanced (list_databases d cfg).1
        × IsBalanced (vacuum_analyze d cfg dbname).1
        × ((names : List Text)
            → (list_databases d cfg).0 ≡ ok names
            → IsWholeAnswer names (d.queried (conn_string (with_db cfg (codes "postgres")))))
  unfolding list_databases list_database_names vacuum_analyze new_postgres_db
  list_databases-IsBalanced dbname =
      let conn = conn_string (with_db cfg (codes "postgres")) in
      let target = conn_string (with_db cfg dbname) in
      (
        listed-IsBalanced conn (d.opened conn) (d.pinged conn) (d.queried conn) refl refl refl,
        vacuum-IsBalanced target (d.opened target) (d.pinged target) refl refl,
        λ names h.
            listed-whole conn names (d.opened conn) (d.pinged conn) (d.queried conn) refl refl refl
              h,
      )
