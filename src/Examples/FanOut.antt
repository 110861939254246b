-- ===== src/Examples/FanOut.antt =====
-- The fan-out at concrete inputs: two items on one slot, after one step.
use nomad_temporal_jobs.Prelude.{
  ℕ, suc, ◌*◌, ◌≤◌, ◌≡◌, refl, ◌⊎◌, List, [], ◌∷◌, map, length, some, arith,
}
use nomad_temporal_jobs.FanOut.{
  waiting, running, Pool, here, Step, acquire, Reach, start, next, start_pool,
}
use nomad_temporal_jobs.FanOut.Bounded.{active, fan_out_bounded}
use nomad_temporal_jobs.FanOut.Outcome.{results, fan_out_results}

abbrev items : List ℕ
items = 4 ∷ 5 ∷ []

abbrev one_runs : Pool ℕ ℕ
one_runs = record { workers = running 4 ∷ waiting 5 ∷ []; held = 1 }

first_step : Reach 1 suc (start_pool items) one_runs 1
first_step = next start (acquire 4 here (omega arith) refl)

fan_out_bounded_example :
    (active one_runs ≤ 1) × (one_runs.held ≡ active one_runs) × (1 ≤ 2 * length items)
fan_out_bounded_example = fan_out_bounded 1 suc items first_step

fan_out_results_example :
    (results one_runs ≡ map some (map suc items)) ⊎ ((u : Pool ℕ ℕ) × Step 1 suc one_runs u)
fan_out_results_example = fan_out_results 1 suc items (omega arith) first_step
