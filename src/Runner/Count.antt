-- ===== src/Runner/Count.antt =====
-- Counting the active runners of every dispatch job by bucket: `CountActiveRunners` of
-- runnerscaler/activities/activities.go. The Go map of counts is an association list.
pub mod Exact
pub mod Visible
pub mod Cluster
use nomad_temporal_jobs.Prelude.{ℕ, suc, Bool, List, [], ◌∷◌, ◌++◌, if◌then◌else◌}
use nomad_temporal_jobs.Prelude.Result.{Result, ok, err, wrap, ◌>>=◌, context}
use nomad_temporal_jobs.Prelude.Text.{Text, text_eq}
use nomad_temporal_jobs.Runner.Config.{push_new}
use nomad_temporal_jobs.Runner.Keys.{RunnerSlot, slot_key}

abbrev pub Counts : Type 0
Counts = List (Text × ℕ)

-- `counts[key]`, 0 if the key is missing
unfoldable pub count_of : Counts → Text → ℕ
count_of [] key = 0
count_of ((k, n) ∷ m) key = let rest = count_of m key in if text_eq k key then n else rest

-- `counts[key]++`
unfoldable pub bump : Counts → Text → Counts
bump [] key = (key, 1) ∷ []
bump ((k, n) ∷ m) key =
    let rest = bump m key in if text_eq k key then (k, suc n) ∷ m else (k, n) ∷ rest

unfoldable pub add_slots : Counts → List RunnerSlot → Counts
add_slots counts [] = counts
add_slots counts (s ∷ slots) = add_slots (bump counts (slot_key s)) slots

unfoldable pub push_all : List Text → List Text → List Text
push_all jobs [] = jobs
push_all jobs (j ∷ js) = push_all (push_new jobs j) js

-- The default job and each extra one, once.
unfoldable pub jobs_to_list : Text → List Text → List Text
unfolding push_all
jobs_to_list default_job extra = push_all (default_job ∷ []) extra

module _ (active_runner_slots : Text → Result (List RunnerSlot)) where
  unfoldable pub count_jobs : Counts → List Text → Result Counts
  count_jobs counts [] = ok counts
  count_jobs counts (job ∷ jobs) =
      context "list active runners" (active_runner_slots job) >>= λ slots.
      count_jobs (add_slots counts slots) jobs

  unfoldable pub count_active_runners : Text → List Text → Result Counts
  unfolding count_jobs jobs_to_list
  count_active_runners default_job extra = count_jobs [] (jobs_to_list default_job extra)
