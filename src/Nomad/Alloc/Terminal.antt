-- ===== src/Nomad/Alloc/Terminal.antt =====
-- When a dispatched runner counts as finished.
use nomad_temporal_jobs.Prelude.{◌≡◌, ap, ◌≢◌, ◌↔◌, Bool, true, List, [], ◌∷◌, ◌++◌, count, arith}
use nomad_temporal_jobs.Prelude.Result.{Result, Failure, ok, err}
use nomad_temporal_jobs.Prelude.Text.{Text, codes, has_substring, has_substring-append}
use nomad_temporal_jobs.Nomad.Alloc.{
  Status, occupies, all_terminal, runner_terminal, ApiError, is_job_not_found,
}

all_terminal-count :
    (allocs : List Status) → (all_terminal allocs ≡ true) ↔ (count occupies allocs ≡ 0)
unfolding all_terminal
all_terminal-count [] = ground arith
all_terminal-count (st ∷ allocs) = ground (arith, all_terminal-count allocs)

-- A runner counts as finished exactly if its job is gone, or it has allocations and none of them is
-- pending or running.
pub runner_terminal_iff :
    (is_job_not_found : Failure → Bool) (r : Result (List Status))
    → (runner_terminal is_job_not_found r ≡ ok true) ↔ (elim r [
      | err e ↦ is_job_not_found e ≡ true
      | ok allocs ↦ (allocs ≢ []) × (count occupies allocs ≡ 0)
    ])
unfolding runner_terminal
runner_terminal_iff nf (err e) = ground arith
runner_terminal_iff nf (ok []) = ground arith
runner_terminal_iff nf (ok (st ∷ allocs)) = ground (arith, all_terminal-count (st ∷ allocs))

-- Where the message of an error quotes the ID of a job that has the digits 404 in it, the error is
-- taken for a missing job, whatever it is, and the runner of that job counts as finished.
pub runner_terminal_quoted :
    (describe : Failure → ApiError) (e : Failure) (before job_id after : Text)
    → (describe e).message ≡ before ++ (job_id ++ after)
    → has_substring job_id (codes "404") ≡ true
    → runner_terminal (λ f. is_job_not_found (describe f)) (err e) ≡ ok true
unfolding runner_terminal is_job_not_found
runner_terminal_quoted describe e before job_id after q h = ground (
  arith,
  ap (λ m. has_substring m (codes "404")) q,
  has_substring-append before job_id after (codes "404") h,
)
