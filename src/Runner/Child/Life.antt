-- ===== src/Runner/Child/Life.antt =====
-- A dispatched runner is always reaped, once its allocations are done or its wait has ended.
use nomad_temporal_jobs.Prelude.{
  ◌≡◌, refl, Bool, true, false, pos, ltb_ℤ, List, [], ◌∷◌, ◌++◌, All, arith, if◌then◌else◌, not,
}
use nomad_temporal_jobs.Prelude.Result.{ok, err, wrap, context}
use nomad_temporal_jobs.Runner.Shortfall.{RunnerSpec}
use nomad_temporal_jobs.Runner.Child.{
  dispatch, wait_done, reap, Outcomes, dispatch_spec, reap_ceiling, handle_runner, Poll,
  wait_runner_done,
}

-- Where the dispatch fails, nothing else is called and the error is returned. Where it gives an ID,
-- the runner of that ID is waited for under a positive ceiling and then reaped, however the wait
-- ends, and the result is that of the reaping.
pub handle_runner_reaps :
    (o : Outcomes) (spec : RunnerSpec)
    → (ltb_ℤ (pos 0) (reap_ceiling spec.reap_after) ≡ true)
      × (handle_runner o spec [] ≡ (elim (o.dispatched (dispatch_spec spec)) [
        | err e ↦ (err (wrap "dispatch runner" e), dispatch (dispatch_spec spec) ∷ [])
        | ok id ↦ (
          context "reap runner" (o.reaped id),
          dispatch (dispatch_spec spec)
              ∷ wait_done id (reap_ceiling spec.reap_after)
              ∷ reap id
              ∷ [],
        )
      ]))
unfolding handle_runner
handle_runner_reaps o spec = ground arith

-- a round that neither sees the runner done nor the context ended
abbrev pub is_quiet : Poll → Bool
is_quiet p = elim p.answer [
  | err e ↦ not p.context_done
  | ok d ↦ if d then false else not p.context_done
]

-- Rounds whose poll fails or finds the runner at work do not end the wait, as long as the context
-- has not ended: what follows them decides.
pub wait_runner_done_skips :
    (quiet polls : List Poll)
    → All (λ p. is_quiet p ≡ true) quiet
    → wait_runner_done (quiet ++ polls) ≡ wait_runner_done polls
unfolding wait_runner_done
wait_runner_done_skips [] polls h = refl
wait_runner_done_skips (p ∷ quiet) polls h =
    ground (arith, h.0, wait_runner_done_skips quiet polls h.1)
