-- ===== src/Runner/Shortfall/Children.antt =====
-- What a tick starts.
use mathlib.Core.List.{map-append}
use nomad_temporal_jobs.Prelude.{
  ℕ, zero, suc, ◌+◌, ◌≡◌, refl, ◌∙◌, sym, ap, ℤ, pos_part, List, [], ◌∷◌, ◌++◌, map, append_assoc,
  append-nil, arith, replicate, upto, count, count-append,
}
use nomad_temporal_jobs.Prelude.Result.{Result, is_ok}
use nomad_temporal_jobs.Prelude.Text.{Text}
use nomad_temporal_jobs.Runner.Config.{Configs}
use nomad_temporal_jobs.Runner.Count.{Counts, count_of}
use nomad_temporal_jobs.Runner.Buckets.{RunnerBucket, Buckets}
use nomad_temporal_jobs.Runner.Shortfall.{
  RunnerSpec, Child, Tick, first_tick, runner_spec, pool_limit, clamp_needed, start_one,
  start_children, top_up, dispatch_shortfall,
}

-- The rounds of a bucket's loop.
abbrev pub rounds : Counts → Configs → Text → RunnerBucket → ℕ
rounds counts cfgs key b =
    pos_part (clamp_needed b.queued (count_of counts key) (pool_limit (cfgs b.repo) b.labels))

abbrev pub spec_of : Configs → ℤ → RunnerBucket → RunnerSpec
spec_of cfgs reap_after b = runner_spec b.repo b.labels (cfgs b.repo) reap_after

-- The specs of one bucket, and of all in order.
abbrev pub bucket_specs : Counts → Configs → ℤ → Text → RunnerBucket → List RunnerSpec
bucket_specs counts cfgs reap_after key b =
    replicate (rounds counts cfgs key b) (spec_of cfgs reap_after b)

abbrev pub wanted : Counts → Configs → ℤ → Buckets → List RunnerSpec
wanted counts cfgs reap_after [] = []
wanted counts cfgs reap_after ((key, b) ∷ m) =
    bucket_specs counts cfgs reap_after key b ++ wanted counts cfgs reap_after m

abbrev pub queued_sum : Buckets → ℕ
queued_sum [] = 0
queued_sum ((key, b) ∷ m) = b.queued + queued_sum m

abbrev pub active_sum : Counts → Buckets → ℕ
active_sum counts [] = 0
active_sum counts ((key, b) ∷ m) = count_of counts key + active_sum counts m

-- The children are numbered in order from 0, and those that started are counted.
pub record IsLogged (t : Tick) : Type 0 where
  pub numbered : map (λ (c : Child). c.seq) t.children ≡ upto t.seq
  pub counted : t.runners_started ≡ count (λ (c : Child). c.started) t.children

-- a tick with the sums of one bucket added
abbrev add_sums : Counts → Text → RunnerBucket → Tick → Tick
add_sums counts key b t = record t {
  queued_jobs = t.queued_jobs + b.queued;
  active_runners = t.active_runners + count_of counts key;
}

abbrev specs : Tick → List RunnerSpec
specs t = map (λ (c : Child). c.spec) t.children

module _ (start_child : ℕ → RunnerSpec → Result (Unit {0})) where
  start_one-IsLogged :
      (spec : RunnerSpec) (t : Tick) → IsLogged t → IsLogged (start_one start_child spec t)
  unfolding start_one
  start_one-IsLogged spec t h = record {
    numbered = map-append _ t.children _ ∙ ap (λ l. l ++ (t.seq ∷ [])) h.numbered;
    counted = ground (
      arith,
      h,
      count-append (λ (c : Child). c.started) t.children
          (record { seq = t.seq; spec = spec; started = is_ok (start_child t.seq spec) } ∷ []),
    );
  }

  start_children-IsLogged :
      (n : ℕ) (spec : RunnerSpec) (t : Tick)
      → IsLogged t
      → IsLogged (start_children start_child n spec t)
  unfolding start_children
  start_children-IsLogged zero spec t h = h
  start_children-IsLogged (suc n) spec t h =
      start_children-IsLogged n spec (start_one start_child spec t) (start_one-IsLogged spec t h)

  specs-start_children :
      (n : ℕ) (spec : RunnerSpec) (t : Tick)
      → specs (start_children start_child n spec t) ≡ specs t ++ replicate n spec
  unfolding start_children start_one
  specs-start_children zero spec t = sym (append-nil _)
  specs-start_children (suc n) spec t =
      specs-start_children n spec (start_one start_child spec t)
      ∙ ap (λ l. l ++ replicate n spec) (map-append _ t.children _)
      ∙ append_assoc (specs t) (spec ∷ []) (replicate n spec)

  sums-start_children :
      (n : ℕ) (spec : RunnerSpec) (t : Tick)
      → ((start_children start_child n spec t).queued_jobs ≡ t.queued_jobs)
        × ((start_children start_child n spec t).active_runners ≡ t.active_runners)
  unfolding start_children start_one
  sums-start_children zero spec t = (refl, refl)
  sums-start_children (suc n) spec t = sums-start_children n spec (start_one start_child spec t)

  dispatch_shortfall-IsLogged :
      (counts : Counts) (cfgs : Configs) (reap_after : ℤ) (m : Buckets) (t : Tick)
      → IsLogged t
      → IsLogged (dispatch_shortfall start_child counts cfgs reap_after m t)
  unfolding dispatch_shortfall top_up
  dispatch_shortfall-IsLogged counts cfgs reap_after [] t h = h
  dispatch_shortfall-IsLogged counts cfgs reap_after ((key, b) ∷ m) t h =
      dispatch_shortfall-IsLogged counts cfgs reap_after m
        (top_up start_child counts cfgs reap_after key b t)
        (start_children-IsLogged (rounds counts cfgs key b) (spec_of cfgs reap_after b)
          (add_sums counts key b t) (record { numbered = h.numbered; counted = h.counted }))

  specs-dispatch_shortfall :
      (counts : Counts) (cfgs : Configs) (reap_after : ℤ) (m : Buckets) (t : Tick)
      → specs (dispatch_shortfall start_child counts cfgs reap_after m t)
        ≡ specs t ++ wanted counts cfgs reap_after m
  unfolding dispatch_shortfall top_up
  specs-dispatch_shortfall counts cfgs reap_after [] t = sym (append-nil (specs t))
  specs-dispatch_shortfall counts cfgs reap_after ((key, b) ∷ m) t =
      specs-dispatch_shortfall counts cfgs reap_after m
        (top_up start_child counts cfgs reap_after key b t)
      ∙ ap (λ l. l ++ wanted counts cfgs reap_after m)
          (specs-start_children (rounds counts cfgs key b) (spec_of cfgs reap_after b)
            (add_sums counts key b t))
      ∙ append_assoc (specs t) (bucket_specs counts cfgs reap_after key b)
          (wanted counts cfgs reap_after m)

  sums-dispatch_shortfall :
      (counts : Counts) (cfgs : Configs) (reap_after : ℤ) (m : Buckets) (t : Tick)
      → let u = dispatch_shortfall start_child counts cfgs reap_after m t in
        (u.queued_jobs ≡ t.queued_jobs + queued_sum m)
        × (u.active_runners ≡ t.active_runners + active_sum counts m)
  unfolding dispatch_shortfall top_up
  sums-dispatch_shortfall counts cfgs reap_after [] t = (omega arith, omega arith)
  sums-dispatch_shortfall counts cfgs reap_after ((key, b) ∷ m) t = omega (
    arith,
    sums-dispatch_shortfall counts cfgs reap_after m
        (top_up start_child counts cfgs reap_after key b t),
    sums-start_children (rounds counts cfgs key b) (spec_of cfgs reap_after b)
        (add_sums counts key b t),
  )

  -- Whichever children fail to start, a tick asks for each bucket's clamped shortfall of children
  -- with the bucket's spec, bucket after bucket; their sequence numbers are 0, 1, 2, …, so that no
  -- two are equal; `runners_started` counts those that started, and the two other counters are the
  -- sums of the queued and of the active runners over the buckets.
  pub dispatch_shortfall_exact :
      (counts : Counts) (cfgs : Configs) (reap_after : ℤ) (m : Buckets)
      → let t = dispatch_shortfall start_child counts cfgs reap_after m first_tick in
        (map (λ (c : Child). c.spec) t.children ≡ wanted counts cfgs reap_after m)
        × (map (λ (c : Child). c.seq) t.children ≡ upto t.seq)
        × (t.runners_started ≡ count (λ (c : Child). c.started) t.children)
        × (t.queued_jobs ≡ queued_sum m)
        × (t.active_runners ≡ active_sum counts m)
  dispatch_shortfall_exact counts cfgs reap_after m =
      let logged =
        dispatch_shortfall-IsLogged counts cfgs reap_after m first_tick
          (record { numbered = refl; counted = refl }) in
      let sums = sums-dispatch_shortfall counts cfgs reap_after m first_tick in
      (
        specs-dispatch_shortfall counts cfgs reap_after m first_tick,
        logged.numbered,
        logged.counted,
        omega (arith, sums),
        omega (arith, sums),
      )
