-- ===== src/Runner/Count/Cluster.antt =====
-- The count of the active runners over the client of Nomad.
use nomad_temporal_jobs.Prelude.{
  ℕ, ◌+◌, ◌≡◌, refl, ◌∙◌, Bool, true, ◌||◌, ◌&&◌, not, List, [], ◌∷◌, any, count, arith,
  if◌then◌else◌,
}
use nomad_temporal_jobs.Prelude.Result.{Result, ok, err, is_ok}
use nomad_temporal_jobs.Prelude.Text.{Text, text_eq, is_empty, contains, times_key}
use nomad_temporal_jobs.Nomad.Alloc.{AllocStub}
use nomad_temporal_jobs.Nomad.Slots.{JobMeta, dispatch_prefix, active_children, active_runner_slots}
use nomad_temporal_jobs.Nomad.Slots.Exact.{
  is_slot_of, has_key, active_children-found, active_children-IsKeySet, slots_in-read_slots,
}
use nomad_temporal_jobs.Runner.Keys.{RunnerSlot}
use nomad_temporal_jobs.Runner.Count.{Counts, count_of, jobs_to_list, count_active_runners}
use nomad_temporal_jobs.Runner.Count.Exact.{
  listed_in, all_listed, count_active_runners_exact, count_active_runners_ok, times-jobs_to_list,
}

-- the children counted for a key over the jobs, whose children are given
abbrev pub children_with : (Text → Bool) → (Text → List Text) → List Text → ℕ
children_with p children [] = 0
children_with p children (job ∷ jobs) = count p (children job) + children_with p children jobs

module _ (info : Text → Result JobMeta) (allocs : List AllocStub) where
  abbrev pub lister : Text → Result (List RunnerSlot)
  lister job = active_runner_slots info (ok allocs) job

  abbrev children_of : Text → List Text
  children_of job = active_children (dispatch_prefix job) allocs []

  listed_in-children :
      (key : Text) (jobs : List Text)
      → listed_in lister key jobs ≡ children_with (has_key info key) children_of jobs
  unfolding active_runner_slots
  listed_in-children key [] = refl
  listed_in-children key (job ∷ jobs) =
      ground (arith, listed_in-children key jobs, slots_in-read_slots info key (children_of job))

  all_listed-lister : (jobs : List Text) → all_listed lister jobs ≡ true
  unfolding active_runner_slots
  all_listed-lister [] = refl
  all_listed-lister (job ∷ jobs) = all_listed-lister jobs

  counted :
      (default_job : Text) (extra : List Text) (q : Result Counts)
      → count_active_runners lister default_job extra ≡ q
      → is_ok q ≡ true
      → (r : Counts) × (count_active_runners lister default_job extra ≡ ok r)
  counted default_job extra (ok r) e h = (r, e)
  counted default_job extra (err f) e h = ground (arith, h)

  -- Over one listing of the allocations, the count refines the number of active runners: for every
  -- bucket key it is the number of distinct children, over a list of jobs, of which an allocation is
  -- pending or running and whose metadata can be read and has that key. The list has the default job
  -- and every extra job that is not empty once, and no other.
  pub count_active_runners_refines :
      (default_job : Text) (extra : List Text)
      → (r : Counts) × (jobs : List Text) × (children : Text → List Text) × (count_active_runners
            lister default_job extra
          ≡ ok r)
        × ((job : Text)
            → times_key job jobs ≡ (
                if text_eq default_job job || (contains extra job && not (is_empty job))
                then 1
                else 0))
        × ((job id : Text)
            → times_key id (children job) ≡ (if any (is_slot_of job id) allocs then 1 else 0))
        × ((key : Text) → count_of r key ≡ children_with (has_key info key) children jobs)
  unfolding contains
  count_active_runners_refines default_job extra =
      let (r, e) = counted default_job extra (count_active_runners lister default_job extra) refl (
        count_active_runners_ok lister default_job extra
        ∙ all_listed-lister (jobs_to_list default_job extra)) in
      (
        r,
        jobs_to_list default_job extra,
        children_of,
        e,
        times-jobs_to_list default_job extra,
        λ job id. ground (
          arith,
          active_children-found job id allocs [],
          active_children-IsKeySet job allocs [] (λ k. refl) id,
        ),
        λ key.
            count_active_runners_exact lister default_job extra key e
            ∙ listed_in-children key (jobs_to_list default_job extra),
      )
