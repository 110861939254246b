-- ===== src/Runner/Shortfall/Bounds.antt =====
-- How many runners a bucket needs.
use nomad_temporal_jobs.Prelude.{ℕ, ◌+◌, ◌-◌, ◌≤◌, ◌<◌, min, ◌≡◌, ℤ, pos, pos_part, ◌≤ℤ◌, arith}
use nomad_temporal_jobs.Runner.Shortfall.{clamp_needed}

-- Under a positive cap, exactly the smaller of the shortfall and the room that is left is started,
-- none where either is negative. Active and new runners together stay within the cap, or no runner
-- is new.
pub clamp_needed_capped :
    (queued active limit : ℕ)
    → 0 < limit
    → (pos_part (clamp_needed queued active (pos limit)) ≡ min (queued - active) (limit - active))
      × (active + pos_part (clamp_needed queued active (pos limit)) ≤ limit + (active - limit))
unfolding clamp_needed
clamp_needed_capped queued active limit h = ground arith

-- With a cap of 0 or less there is no cap: exactly the shortfall is started.
pub clamp_needed_uncapped :
    (queued active : ℕ) (limit : ℤ)
    → limit ≤ℤ pos 0
    → pos_part (clamp_needed queued active limit) ≡ queued - active
unfolding clamp_needed
clamp_needed_uncapped queued active limit h = ground arith

pub clamp_needed-le :
    (queued active : ℕ) (limit : ℤ) → pos_part (clamp_needed queued active limit) ≤ queued - active
unfolding clamp_needed
clamp_needed-le queued active limit = ground arith

-- Once the runners that a tick starts are active, and the queue has not changed, the next tick
-- starts none, whatever the cap.
pub clamp_needed_settles :
    (queued active : ℕ) (limit : ℤ)
    → pos_part (clamp_needed queued (active + pos_part (clamp_needed queued active limit)) limit)
      ≡ 0
unfolding clamp_needed
clamp_needed_settles queued active limit = ground arith
