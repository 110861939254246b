-- ===== src/Nomad/Alloc.antt =====
-- Allocations and errors of the API: `RunningAllocStubs`, `RunningJobIDs`, `RunnerTerminal` and
-- `IsJobNotFound` of shared/client/nomad/nomad.go.
pub mod Terminal
pub mod Running
use nomad_temporal_jobs.Prelude.{
  ℕ, ◌==◌, Bool, true, false, ◌||◌, Option, none, some, List, [], ◌∷◌, keep, if◌then◌else◌,
}
use nomad_temporal_jobs.Prelude.Result.{Result, Failure, ok, err, context, ◌>>=◌}
use nomad_temporal_jobs.Prelude.Text.{Text, codes, has_substring, add_key}

-- The client status of an allocation.
pub data Status : Type 0 where
  pending running complete failed lost unknown : Status

unfoldable pub is_running : Status → Bool
is_running running = true
is_running _ = false

-- A slot is taken by what is pending or running.
unfoldable pub occupies : Status → Bool
occupies pending = true
occupies running = true
occupies _ = false

pub record AllocStub : Type 0 where
  pub id : Text
  pub job_id : Text
  pub node_id : Text
  pub client_status : Status

unfoldable pub running_alloc_stubs : List AllocStub → List AllocStub
unfolding is_running
running_alloc_stubs = keep (λ (al : AllocStub). is_running al.client_status)

-- The set of job IDs, in the order in which they were first seen.
unfoldable pub running_ids : List AllocStub → List Text → List Text
unfolding is_running
running_ids [] set = set
running_ids (al ∷ allocs) set =
    running_ids allocs (if is_running al.client_status then add_key set al.job_id else set)

unfoldable pub running_job_ids : Result (List AllocStub) → Result (List Text)
unfolding running_ids
running_job_ids listed =
    context "list allocations for node" listed >>= λ allocs. ok (running_ids allocs [])

unfoldable pub all_terminal : List Status → Bool
unfolding occupies
all_terminal [] = true
all_terminal (st ∷ allocs) = let rest = all_terminal allocs in if occupies st then false else rest

unfoldable pub runner_terminal : (Failure → Bool) → Result (List Status) → Result Bool
unfolding all_terminal
runner_terminal is_job_not_found (ok []) = ok false
runner_terminal is_job_not_found (ok (st ∷ allocs)) = ok (all_terminal (st ∷ allocs))
runner_terminal is_job_not_found (err e) = if is_job_not_found e then ok true else err e

-- What an error says: the status code, if it is an `api.UnexpectedResponseError`, and its message.
pub record ApiError : Type 0 where
  pub status_code : Option ℕ
  pub message : Text

is_not_found_code : Option ℕ → Bool
is_not_found_code none = false
is_not_found_code (some c) = c == 404

unfoldable pub is_job_not_found : ApiError → Bool
unfolding is_not_found_code
is_job_not_found e =
    is_not_found_code e.status_code
    || has_substring e.message (codes "job not found")
    || has_substring e.message (codes "404")
