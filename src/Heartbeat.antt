-- ===== src/Heartbeat.antt =====
-- Running while heartbeating: `WithHeartbeat` of shared/heartbeat.go. What the select of its loop
-- takes, in order, is a value: ticks, then the end of the function or of the context.
use nomad_temporal_jobs.Prelude.{
  ℕ, zero, suc, ◌≡◌, List, [], ◌∷◌, ◌++◌, arith, append-nil, append_assoc,
}
use nomad_temporal_jobs.Prelude.Result.{Result, Failure, err}

pub data Events (A : Type 0) : Type 0 where
  finished : Result A → Events A
  cancelled : Failure → Events A
  tick : Events A → Events A

-- start + 1, start + 2, …, n of them
abbrev count_from : ℕ → ℕ → List ℕ
count_from start zero = []
count_from start (suc n) = suc start ∷ count_from (suc start) n

module _ {A : Type 0} where
  -- The loop, by the ticks so far and the payloads that were recorded.
  unfoldable pub heartbeat_loop : Events A → ℕ → List ℕ → Result A × List ℕ
  heartbeat_loop (finished r) ticks beats = (r, beats)
  heartbeat_loop (cancelled e) ticks beats = (err e, beats)
  heartbeat_loop (tick events) ticks beats =
      heartbeat_loop events (suc ticks) (beats ++ (suc ticks ∷ []))

  unfoldable pub with_heartbeat : Events A → Result A × List ℕ
  unfolding heartbeat_loop
  with_heartbeat events = heartbeat_loop events 0 []

  -- how the events end, and how many ticks come before
  abbrev pub ending : Events A → Result A
  ending (finished r) = r
  ending (cancelled e) = err e
  ending (tick events) = ending events

  abbrev pub ticks_of : Events A → ℕ
  ticks_of (finished r) = 0
  ticks_of (cancelled e) = 0
  ticks_of (tick events) = suc (ticks_of events)

  heartbeat_loop_lem :
      (events : Events A) (ticks : ℕ) (beats : List ℕ)
      → heartbeat_loop events ticks beats
        ≡ (ending events, beats ++ count_from ticks (ticks_of events))
  unfolding heartbeat_loop
  heartbeat_loop_lem (finished r) ticks beats = ground (arith, append-nil beats)
  heartbeat_loop_lem (cancelled e) ticks beats = ground (arith, append-nil beats)
  heartbeat_loop_lem (tick events) ticks beats = ground (
    arith,
    heartbeat_loop_lem events (suc ticks) (beats ++ (suc ticks ∷ [])),
    append_assoc beats (suc ticks ∷ []) (count_from (suc ticks) (ticks_of events)),
  )

  -- A function that is run while heartbeating answers as the wait for it ends, with the error of the
  -- context where that comes first, and the heartbeats before the end are the numbers 1, 2, … in
  -- order, one for each tick.
  pub with_heartbeat_lem :
      (events : Events A) → with_heartbeat events ≡ (ending events, count_from 0 (ticks_of events))
  unfolding with_heartbeat
  with_heartbeat_lem events = heartbeat_loop_lem events 0 []
