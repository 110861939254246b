-- ===== src/Maintenance/Postgres.antt =====
-- The vacuum of every database: `PostgresMaintenance` of maintenance/postgresmaint/workflow.go. The
-- fan-out leaves each entry at its own index (see FanOut), so the entries are a map over the
-- databases; what the activity answers is a function of the database.
use nomad_temporal_jobs.Prelude.{
  ◌≡◌, ◌↔◌, refl, Bool, true, not, List, [], ◌∷◌, map, keep, All, arith,
}
use nomad_temporal_jobs.Prelude.Result.{Result, wrap, both, ok, err, context, is_ok, Result-cases}
use nomad_temporal_jobs.Prelude.Text.{Text}

-- An entry, with whether its error is set.
pub record DatabaseMaintenance : Type 0 where
  pub database : Text
  pub failed : Bool

pub record PostgresMaintenanceResult : Type 0 where
  pub databases : List DatabaseMaintenance
  pub success : Bool

-- `errors.Join` over the slots of the databases, those without an error being nil
unfoldable pub join_slots : List (Result (Unit {0})) → Result (Unit {0})
join_slots [] = ok tt
join_slots (ok u ∷ slots) = join_slots slots
join_slots (err e ∷ slots) = elim (join_slots slots) [
  | ok u ↦ err (wrap "database" e)
  | err f ↦ err (both (wrap "database" e) f)
]

module _ (vacuum : Text → Result (Unit {0})) where
  entry : Text → DatabaseMaintenance
  entry db = record { database = db; failed = not (is_ok (vacuum db)) }

  -- The result stands also beside the error of the vacuums; there is none where the databases cannot
  -- be listed.
  unfoldable pub postgres_maintenance :
      Result (List Text) → Result (PostgresMaintenanceResult × Result (Unit {0}))
  unfolding entry join_slots
  postgres_maintenance (err e) = err (wrap "list databases" e)
  postgres_maintenance (ok dbs) =
      let joined = join_slots (map vacuum dbs) in
      ok (
        record { databases = map entry dbs; success = is_ok joined },
        context "one or more vacuums failed" joined,
      )

  join_slots_iff :
      (dbs : List Text)
      → (is_ok (join_slots (map vacuum dbs)) ≡ true) ↔ All (λ db. is_ok (vacuum db) ≡ true) dbs
  unfolding join_slots
  join_slots_iff [] = ground arith
  join_slots_iff (db ∷ dbs) = ground (
    arith,
    join_slots_iff dbs,
    Result-cases (vacuum db),
    Result-cases (join_slots (map vacuum dbs)),
  )

  failed_entries :
      (dbs : List Text)
      → map
          (λ (d : DatabaseMaintenance). d.database)
          (keep (λ (d : DatabaseMaintenance). d.failed) (map entry dbs))
        ≡ keep (λ db. not (is_ok (vacuum db))) dbs
  unfolding entry
  failed_entries [] = refl
  failed_entries (db ∷ dbs) = ground (arith, failed_entries dbs)

  context-is_ok : (r : Result (Unit {0})) → is_ok (context "one or more vacuums failed" r) ≡ is_ok r
  context-is_ok (ok u) = refl
  context-is_ok (err e) = refl

  -- Every listed database is vacuumed, whatever failed before: the entries marked as failed are, in
  -- order, those of the databases whose vacuum failed, and the run succeeds, by its mark as by its
  -- error, exactly if no vacuum failed.
  pub postgres_maintenance_exact :
      (dbs : List Text)
      → (r : PostgresMaintenanceResult) × (q : Result (Unit {0})) × (postgres_maintenance (ok dbs)
          ≡ ok (r, q))
        × (map
              (λ (d : DatabaseMaintenance). d.database)
              (keep (λ (d : DatabaseMaintenance). d.failed) r.databases)
            ≡ keep (λ db. not (is_ok (vacuum db))) dbs)
        × (is_ok q ≡ r.success)
        × ((r.success ≡ true) ↔ All (λ db. is_ok (vacuum db) ≡ true) dbs)
  unfolding postgres_maintenance
  postgres_maintenance_exact dbs = (
    _,
    _,
    refl,
    failed_entries dbs,
    context-is_ok (join_slots (map vacuum dbs)),
    join_slots_iff dbs,
  )
