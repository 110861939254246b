-- ===== src/Runner/Dispatch/Sent.antt =====
-- What a dispatch sends to Nomad, and when.
use nomad_temporal_jobs.Prelude.{
  ℕ, ◌+◌, ◌≤◌, ◌≡◌, Bool, true, false, Option, none, some, List, [], ◌∷◌, length, All, arith,
  if◌then◌else◌,
}
use nomad_temporal_jobs.Prelude.Result.{is_ok}
use nomad_temporal_jobs.Prelude.Text.{Text, is_empty}
use nomad_temporal_jobs.Runner.Keys.{RunnerSlot, dispatched_slot}
use nomad_temporal_jobs.Runner.Dispatch.{
  DispatchSpec, Meta, Call, read_kv, new_client, list_jobs, mint, dispatch_job, Services,
  forgejo_for, minter_for, dispatch_job_id, dispatch_runner,
}

-- the dispatches among some calls, and the number of tokens minted
abbrev pub dispatches : List Call → List (Text × Meta)
dispatches [] = []
dispatches (dispatch_job job meta ∷ log) = (job, meta) ∷ dispatches log
dispatches (read_kv p ∷ log) = dispatches log
dispatches (new_client c ∷ log) = dispatches log
dispatches (list_jobs c o n ∷ log) = dispatches log
dispatches (mint c o n ∷ log) = dispatches log

abbrev pub mints : List Call → ℕ
mints [] = 0
mints (mint c o n ∷ log) = let rest = mints log in rest + 1
mints (dispatch_job job meta ∷ log) = mints log
mints (read_kv p ∷ log) = mints log
mints (new_client c ∷ log) = mints log
mints (list_jobs c o n ∷ log) = mints log

abbrev pub has : Option Text → Bool
has none = false
has (some t) = true

-- the slot that Nomad lists for a job with this metadata
abbrev pub slot_of : Meta → RunnerSlot
slot_of m = record { repo_url = m.repo_url; labels = m.labels }

-- A dispatch asks Nomad for at most one job, and for exactly one where it succeeds. The job is the
-- spec's, or the default one; it reads back as the slot of the spec's repository and labels; it
-- carries a token exactly if the spec asks to mint one, and the path of a secret exactly if the spec
-- has one. No more than one token is minted, and none for a spec that does not ask for it.
pub dispatch_runner_sends :
    (s : Services) (spec : DispatchSpec)
    → let (r, log) = dispatch_runner s spec [] in
      (length (dispatches log) ≤ 1)
      × (is_ok r ≡ true → length (dispatches log) ≡ 1)
      × All
          (λ (d : Text × Meta).
            (d.0 ≡ dispatch_job_id s spec)
            × (slot_of d.1 ≡ dispatched_slot spec.mode spec.forgejo_url spec.repo spec.labels)
            × (has d.1.runner_token ≡ spec.mint_token)
            × (has d.1.runner_secret ≡ (if is_empty spec.vault_secret then false else true)))
          (dispatches log)
      × (mints log ≤ (if spec.mint_token then 1 else 0))
unfolding dispatch_runner forgejo_for minter_for dispatched_slot
dispatch_runner_sends s spec = ground arith
