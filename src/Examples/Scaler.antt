-- ===== src/Examples/Scaler.antt =====
-- The runner scaler at concrete inputs: one repository with two queued jobs.
use nomad_temporal_jobs.Prelude.{
  ℕ, zero, suc, ◌+◌, ◌-◌, ◌≤◌, min, ◌≡◌, ◌≢◌, refl, pos, pos_part, true, false, List, [], ◌∷◌, ◌++◌,
  map, count, upto, All, arith,
}
use nomad_temporal_jobs.Prelude.Result.{Result, external, ok, err}
use nomad_temporal_jobs.Prelude.Text.{
  Text, codes, text_eq, equal_fold, to_lower, to_lower_byte, Lacks, after_prefix, trim_right,
  has_prefix,
}
use nomad_temporal_jobs.Runner.Config.{RepoConfig, QueuedJob, zero_config}
use nomad_temporal_jobs.Runner.Keys.{runner_bucket_key, slot_key, dispatched_slot}
use nomad_temporal_jobs.Runner.Keys.RoundTrip.{slot_key-dispatched_forgejo}
use nomad_temporal_jobs.Runner.Buckets.{RunnerBucket, bucket_queued_jobs}
use nomad_temporal_jobs.Runner.Buckets.Exact.{
  queued_of, scanned_with, IsKeyed, bucket_queued_jobs_exact,
}
use nomad_temporal_jobs.Runner.Shortfall.{
  RunnerSpec, clamp_needed, Child, first_tick, dispatch_shortfall,
}
use nomad_temporal_jobs.Runner.Shortfall.Bounds.{clamp_needed_capped}
use nomad_temporal_jobs.Runner.Shortfall.Children.{
  wanted, queued_sum, active_sum, dispatch_shortfall_exact,
}

abbrev pub repo : Text
repo = codes "o/r"

abbrev pub labels : List Text
labels = codes "self-hosted" ∷ codes "arm" ∷ []

abbrev pub cfg : RepoConfig
cfg = record zero_config { mode = codes "Vault"; max_concurrent = pos 3 }

abbrev pub key : Text
key = codes "o/r|arm,self-hosted"

abbrev bucket : RunnerBucket
bucket = record { repo = repo; labels = labels; queued = 2 }

abbrev pub child_answers : ℕ → RunnerSpec → Result (Unit {0})
child_answers zero spec = ok tt
child_answers (suc n) spec = err (external "already started")

dispatch_shortfall_exact_example :
    let t =
      dispatch_shortfall child_answers [] (λ r. cfg) (pos 0) ((key, bucket) ∷ []) first_tick in
    (map (λ (c : Child). c.spec) t.children ≡ wanted [] (λ r. cfg) (pos 0) ((key, bucket) ∷ []))
    × (map (λ (c : Child). c.seq) t.children ≡ upto t.seq)
    × (t.runners_started ≡ count (λ (c : Child). c.started) t.children)
    × (t.queued_jobs ≡ queued_sum ((key, bucket) ∷ []))
    × (t.active_runners ≡ active_sum [] ((key, bucket) ∷ []))
dispatch_shortfall_exact_example =
    dispatch_shortfall_exact child_answers [] (λ r. cfg) (pos 0) ((key, bucket) ∷ [])

clamp_needed_capped_example :
    (pos_part (clamp_needed 7 2 (pos 4)) ≡ min (7 - 2) (4 - 2))
    × (2 + pos_part (clamp_needed 7 2 (pos 4)) ≤ 4 + (2 - 4))
clamp_needed_capped_example = clamp_needed_capped 7 2 4 (omega arith)

abbrev pub jobs : List QueuedJob
jobs =
    record { id = 1; run_id = 1; name = []; labels = labels }
    ∷ record { id = 2; run_id = 1; name = []; labels = labels }
    ∷ []

bucket_queued_jobs_exact_example :
    ((k : Text)
      → queued_of (bucket_queued_jobs (repo ∷ []) (jobs ∷ [])) k
        ≡ scanned_with k (repo ∷ []) (jobs ∷ []))
    × IsKeyed (bucket_queued_jobs (repo ∷ []) (jobs ∷ []))
bucket_queued_jobs_exact_example = bucket_queued_jobs_exact (repo ∷ []) (jobs ∷ [])

no_comma : All (Lacks b',') labels
no_comma = ground arith

forgejo_mode : equal_fold (codes "forgejo") (codes "forgejo") ≡ true
unfolding equal_fold to_lower to_lower_byte text_eq
forgejo_mode = refl

elsewhere :
    has_prefix
      (trim_right b'/' (codes "https://git.local/") ++ (b'/' ∷ repo))
      (codes "https://github.com/")
    ≡ false
unfolding has_prefix trim_right after_prefix
elsewhere = refl

slot_key-dispatched_forgejo_example :
    slot_key (dispatched_slot (codes "forgejo") (codes "https://git.local/") repo labels)
    ≢ runner_bucket_key repo labels
slot_key-dispatched_forgejo_example =
    slot_key-dispatched_forgejo (codes "forgejo") (codes "https://git.local/") repo labels
      forgejo_mode elsewhere no_comma
