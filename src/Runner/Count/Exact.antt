-- ===== src/Runner/Count/Exact.antt =====
-- The counts are exact, over every job once.
use nomad_temporal_jobs.Prelude.{
  ℕ, suc, ◌+◌, ◌≡◌, refl, ◌∙◌, Bool, true, false, ◌||◌, List, [], ◌∷◌, ◌++◌, arith, count,
  count-append, inl, inr, ◌&&◌, not, if◌then◌else◌,
}
use nomad_temporal_jobs.Prelude.Result.{Result, ok, err, is_ok, Result-cases}
use nomad_temporal_jobs.Prelude.Text.{Text, text_eq, text_eq_iff, contains, is_empty}
use nomad_temporal_jobs.Runner.Config.{push_new}
use nomad_temporal_jobs.Runner.Keys.{RunnerSlot, slot_key}
use nomad_temporal_jobs.Runner.Count.{
  Counts, count_of, bump, add_slots, push_all, jobs_to_list, count_jobs, count_active_runners,
}

pub count_of-bump :
    (m : Counts) (k key : Text)
    → count_of (bump m k) key ≡ (if text_eq k key then suc (count_of m key) else count_of m key)
unfolding count_of bump
count_of-bump [] k key = refl
count_of-bump ((j, n) ∷ m) k key =
    ground (arith, count_of-bump m k key, text_eq_iff j k, text_eq_iff k key, text_eq_iff j key)

-- The slots of a bucket.
abbrev pub slots_in : Text → List RunnerSlot → ℕ
slots_in key = count (λ s. text_eq (slot_key s) key)

count_of-add_slots :
    (m : Counts) (slots : List RunnerSlot) (key : Text)
    → count_of (add_slots m slots) key ≡ count_of m key + slots_in key slots
unfolding add_slots
count_of-add_slots m [] key = omega arith
count_of-add_slots m (s ∷ slots) key =
    ground
      (arith, count_of-add_slots (bump m (slot_key s)) slots key, count_of-bump m (slot_key s) key)

-- the slots of a bucket in one listing
abbrev pub found_in : Text → Result (List RunnerSlot) → ℕ
found_in key (ok slots) = slots_in key slots
found_in key (err e) = 0

module _ (active_runner_slots : Text → Result (List RunnerSlot)) where
  abbrev pub listed_in : Text → List Text → ℕ
  listed_in key [] = 0
  listed_in key (job ∷ jobs) = found_in key (active_runner_slots job) + listed_in key jobs

  -- every job of a list can be listed
  abbrev pub all_listed : List Text → Bool
  all_listed [] = true
  all_listed (job ∷ jobs) = if is_ok (active_runner_slots job) then all_listed jobs else false

  count_jobs_exact :
      (m : Counts) (jobs : List Text) (key : Text) {r : Counts}
      → count_jobs active_runner_slots m jobs ≡ ok r
      → count_of r key ≡ count_of m key + listed_in key jobs
  unfolding count_jobs
  count_jobs_exact m [] key h = ground arith
  count_jobs_exact m (job ∷ jobs) key {r} h = elim (Result-cases (active_runner_slots job)) [
    | inl (slots, e) ↦ ground (
      arith,
      e,
      count_jobs_exact (add_slots m slots) jobs key {r = r},
      count_of-add_slots m slots key,
    )
    | inr (f, e) ↦ ground (arith, e)
  ]

  count_jobs_ok :
      (m : Counts) (jobs : List Text)
      → is_ok (count_jobs active_runner_slots m jobs) ≡ all_listed jobs
  unfolding count_jobs
  count_jobs_ok m [] = refl
  count_jobs_ok m (job ∷ jobs) = elim (Result-cases (active_runner_slots job)) [
    | inl (slots, e) ↦ ground (arith, e, count_jobs_ok (add_slots m slots) jobs)
    | inr (f, e) ↦ ground (arith, e)
  ]

  -- For every bucket key, a successful count is the number of active slots with that key over the
  -- default job and the extra jobs, each taken once.
  pub count_active_runners_exact :
      (default_job : Text) (extra : List Text) (key : Text) {r : Counts}
      → count_active_runners active_runner_slots default_job extra ≡ ok r
      → count_of r key ≡ listed_in key (jobs_to_list default_job extra)
  unfolding count_active_runners
  count_active_runners_exact default_job extra key h =
      count_jobs_exact [] (jobs_to_list default_job extra) key h ∙ unfold count_of in omega arith

  -- The count succeeds exactly when every one of the jobs can be listed.
  pub count_active_runners_ok :
      (default_job : Text) (extra : List Text)
      → is_ok (count_active_runners active_runner_slots default_job extra)
        ≡ all_listed (jobs_to_list default_job extra)
  unfolding count_active_runners
  count_active_runners_ok default_job extra = count_jobs_ok [] (jobs_to_list default_job extra)

-- how often a job stands in a list
abbrev pub times : Text → List Text → ℕ
times j = count (λ k. text_eq k j)

contains-append_one :
    (jobs : List Text) (k j : Text)
    → contains (jobs ++ (k ∷ [])) j ≡ (contains jobs j || text_eq k j)
unfolding contains
contains-append_one [] k j = ground arith
contains-append_one (i ∷ jobs) k j = ground (arith, contains-append_one jobs k j)

times-contains : (jobs : List Text) (j : Text) → contains jobs j ≡ false → times j jobs ≡ 0
unfolding contains
times-contains [] j h = refl
times-contains (k ∷ jobs) j h = ground (arith, times-contains jobs j)

contains-push_new :
    (jobs : List Text) (k j : Text)
    → contains (push_new jobs k) j ≡ (contains jobs j || (text_eq k j && not (is_empty j)))
unfolding push_new
contains-push_new jobs k j = ground (arith, contains-append_one jobs k j, text_eq_iff k j)

times-push_new :
    (jobs : List Text) (k j : Text)
    → times j (push_new jobs k)
      ≡ (if contains jobs j then times j jobs else if text_eq k j && not (is_empty j) then 1 else 0)
unfolding push_new
times-push_new jobs k j =
    ground
      (arith, count-append (λ i. text_eq i j) jobs (k ∷ []), text_eq_iff k j, times-contains jobs j)

times-push_all :
    (jobs js : List Text) (j : Text)
    → times j (push_all jobs js) ≡ (
        if contains jobs j
        then times j jobs
        else if contains js j && not (is_empty j)
        then 1
        else 0)
unfolding push_all contains
times-push_all jobs [] j = ground (arith, times-contains jobs j)
times-push_all jobs (k ∷ js) j = ground (
  arith,
  times-push_all (push_new jobs k) js j,
  contains-push_new jobs k j,
  times-push_new jobs k j,
)

-- Of the jobs that are listed, the default job and each non-empty extra job stand there once, and
-- no other job.
pub times-jobs_to_list :
    (default_job : Text) (extra : List Text) (j : Text)
    → times j (jobs_to_list default_job extra)
      ≡ (if text_eq default_job j || (contains extra j && not (is_empty j)) then 1 else 0)
unfolding jobs_to_list contains
times-jobs_to_list default_job extra j = ground (arith, times-push_all (default_job ∷ []) extra j)
