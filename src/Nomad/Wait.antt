-- ===== src/Nomad/Wait.antt =====
-- Waiting for a number of running allocations: `WaitNomadAllocCount` of shared/client/nomad/nomad.go.
-- A round of the loop is what the environment answers in it.
pub mod First
use nomad_temporal_jobs.Prelude.{
  ℕ, ◌==◌, ℤ, pos, ltb_ℤ, eqb_ℤ, Bool, true, false, ◌&&◌, ◌||◌, not, Option, none, some, List, [],
  ◌∷◌, length, if◌then◌else◌,
}
use nomad_temporal_jobs.Prelude.Result.{Result, Failure, external, ok, err}
use nomad_temporal_jobs.Nomad.Alloc.{AllocStub, running_alloc_stubs}

-- Whether the context is done at the head of the round, the listing, and whether the context ends
-- before the interval does.
pub record Round : Type 0 where
  pub done_before : Bool
  pub listing : Result (List AllocStub)
  pub done_after : Bool

-- `(target == 0 && running == 0) || (target > 0 && running >= target)`
unfoldable pub is_met : ℤ → ℕ → Bool
is_met target running =
    (eqb_ℤ target (pos 0) && running == 0)
    || (ltb_ℤ (pos 0) target && not (ltb_ℤ (pos running) target))

-- A listing that fails meets nothing.
unfoldable pub listing_met : ℤ → Result (List AllocStub) → Bool
unfolding is_met running_alloc_stubs
listing_met target (ok allocs) = is_met target (length (running_alloc_stubs allocs))
listing_met target (err e) = false

context_error : Option (Result (Unit {0}))
context_error = some (err (external "context"))

-- `none` while the rounds so far leave the loop running.
unfoldable pub wait_alloc_count : ℤ → List Round → Option (Result (Unit {0}))
unfolding listing_met context_error
wait_alloc_count target [] = none
wait_alloc_count target (r ∷ rounds) =
    let rest = wait_alloc_count target rounds in
    if r.done_before
    then context_error
    else if listing_met target r.listing
    then some (ok tt)
    else if r.done_after
    then context_error
    else rest
