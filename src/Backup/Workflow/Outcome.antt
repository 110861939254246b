-- ===== src/Backup/Workflow/Outcome.antt =====
-- When a backup succeeds, and what it attempts.
use Prim.Native.String.{String}
use nomad_temporal_jobs.Prelude.{
  pos, ◌≡◌, refl, ltb_ℤ, Bool, true, false, ◌&&◌, List, [], ◌∷◌, map, arith, inl, inr, ap, ◌∙◌,
  if◌then◌else◌,
}
use nomad_temporal_jobs.Prelude.Result.{Result, ok, err, is_ok, context, Result-cases}
use nomad_temporal_jobs.Prelude.Text.{Text, codes}
use nomad_temporal_jobs.Backup.Workflow.{
  BackupConfig, apply_defaults, DatabaseBackup, Activities, local_backups, s3_backups, join,
  snapshot_leg, dump_database, join_dumps, postgres_leg, retention, backup,
}

module _ (a : Activities) where
  abbrev pub all_dumped : List Text → Bool
  all_dumped [] = true
  all_dumped (db ∷ dbs) = is_ok (a.backup_postgres_database db) && all_dumped dbs

  -- every database of a listing that was answered was dumped
  abbrev pub listed_all_dumped : Result (List Text) → Bool
  listed_all_dumped (ok dbs) = all_dumped dbs
  listed_all_dumped (err e) = false

  is_ok-join : (r s : Result (Unit {0})) → is_ok (join r s) ≡ is_ok r && is_ok s
  unfolding join
  is_ok-join (ok u) s = refl
  is_ok-join (err e) (ok u) = refl
  is_ok-join (err e) (err f) = refl

  is_ok-dump_database :
      (db : Text) → is_ok (dump_database a db).1 ≡ is_ok (a.backup_postgres_database db)
  unfolding dump_database
  is_ok-dump_database db = ground (arith, Result-cases (a.backup_postgres_database db))

  is_ok-join_dumps : (dbs : List Text) → is_ok (join_dumps a dbs) ≡ all_dumped dbs
  unfolding join_dumps
  is_ok-join_dumps [] = refl
  is_ok-join_dumps (db ∷ dbs) = ground (
    arith,
    is_ok-join (dump_database a db).1 (join_dumps a dbs),
    is_ok-dump_database db,
    is_ok-join_dumps dbs,
  )

  is_ok-snapshot_leg :
      (r : Result Text) (name : Text) → is_ok (snapshot_leg a r name).answer ≡ is_ok r
  unfolding snapshot_leg
  is_ok-snapshot_leg (ok p) name = refl
  is_ok-snapshot_leg (err e) name = refl

  is_ok-context : {A : Type 0} (s : String) (r : Result A) → is_ok (context s r) ≡ is_ok r
  is_ok-context s (ok x) = refl
  is_ok-context s (err e) = refl

  is_ok-postgres_leg :
      is_ok (postgres_leg a).answer
      ≡ is_ok a.backup_postgres_globals && listed_all_dumped a.list_postgres_databases
  unfolding postgres_leg
  is_ok-postgres_leg = elim (Result-cases a.backup_postgres_globals) [
    | inl (p, q) ↦ elim (Result-cases a.list_postgres_databases) [
      | inl (dbs, r) ↦ ground (
        arith,
        q,
        r,
        is_ok-context "one or more database dumps failed" (join_dumps a dbs),
        is_ok-join_dumps dbs,
      )
      | inr (e, r) ↦ ground (arith, q, r)
    ]
    | inr (e, q) ↦ ground (arith, q)
  ]

  retention_lem :
      (c : BackupConfig) (r : Result (Unit {0}))
      → retention a c r ≡ (
          if is_ok r
          then local_backups c.local_days ∷ (if c.s3_cleanup then s3_backups c.s3_days ∷ [] else [])
          else [])
  unfolding retention
  retention_lem c (ok u) = refl
  retention_lem c (err e) = refl

  names-dump_database :
      (dbs : List Text)
      → map (λ (d : DatabaseBackup). d.database) (map (λ db. (dump_database a db).0) dbs) ≡ dbs
  unfolding dump_database
  names-dump_database [] = refl
  names-dump_database (db ∷ dbs) =
      ground (arith, Result-cases (a.backup_postgres_database db), names-dump_database dbs)

  -- A backup succeeds exactly if both snapshots, the dump of the globals, the listing and every dump
  -- of a listed database succeed, whatever the uploads and the cleanups answer; the result says so.
  pub backup-success_iff :
      (config : BackupConfig)
      → let (result, answer, cleanups) = backup a config in
        (result.success ≡ is_ok answer)
        × (is_ok answer
            ≡ is_ok a.take_nomad_snapshot
              && (is_ok a.take_consul_snapshot
                  && (is_ok a.backup_postgres_globals
                      && listed_all_dumped a.list_postgres_databases)))
  unfolding backup
  backup-success_iff config =
      let n = snapshot_leg a a.take_nomad_snapshot (codes "nomad") in
      let c = snapshot_leg a a.take_consul_snapshot (codes "consul") in
      (
        refl,
        is_ok-join n.answer (join c.answer (postgres_leg a).answer)
            ∙ ap (λ b. is_ok n.answer && b) (is_ok-join c.answer (postgres_leg a).answer)
            ∙ ap (λ b. b && (is_ok c.answer && is_ok (postgres_leg a).answer))
                (is_ok-snapshot_leg a.take_nomad_snapshot (codes "nomad"))
            ∙ ap (λ b. is_ok a.take_nomad_snapshot && (b && is_ok (postgres_leg a).answer))
                (is_ok-snapshot_leg a.take_consul_snapshot (codes "consul"))
            ∙ ap (λ b. is_ok a.take_nomad_snapshot && (is_ok a.take_consul_snapshot && b))
                is_ok-postgres_leg,
      )

  -- After a failed leg nothing is cleaned up. Otherwise the local backups are, with the days of the
  -- configuration or 7, and those in the store exactly if the configuration asks for it, with its
  -- days or 30.
  pub backup-cleanups :
      (config : BackupConfig)
      → let (result, answer, cleanups) = backup a config in
        cleanups ≡ (
          if is_ok answer
          then local_backups (if ltb_ℤ (pos 0) config.local_days then config.local_days else pos 7)
            ∷ (if config.s3_cleanup
                then s3_backups (if ltb_ℤ (pos 0) config.s3_days then config.s3_days else pos 30)
                  ∷ []
                else [])
          else [])
  unfolding backup apply_defaults
  backup-cleanups config = retention_lem (apply_defaults config) (backup a config).1

  -- Once the globals are dumped and the databases listed, the result has one entry for each database,
  -- in order, even where dumps fail.
  pub backup-databases :
      (config : BackupConfig) (dbs : List Text)
      → is_ok a.backup_postgres_globals ≡ true
      → a.list_postgres_databases ≡ ok dbs
      → map (λ (d : DatabaseBackup). d.database) (backup a config).0.postgres_databases ≡ dbs
  unfolding backup postgres_leg
  backup-databases config dbs p q =
      ground (arith, p, q, Result-cases a.backup_postgres_globals, names-dump_database dbs)
