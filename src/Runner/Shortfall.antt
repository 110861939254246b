-- ===== src/Runner/Shortfall.antt =====
-- Topping up the runners of each bucket: `dispatchShortfall` and `startRunnerChild` of
-- runnerscaler/workflows/poll_dispatch.go. `children` logs the child workflows that were asked to
-- start, oldest first, with the sequence number that makes each child's workflow ID unique.
pub mod Bounds
pub mod Children
use nomad_temporal_jobs.Prelude.{
  ℕ, zero, suc, ◌+◌, ◌-◌, ℤ, pos, negsuc, pos_part, sub_ℕ, ◌-ℤ◌, ltb_ℤ, eqb_ℤ, Bool, true, false,
  ◌&&◌, not, List, [], ◌∷◌, ◌++◌, if◌then◌else◌,
}
use nomad_temporal_jobs.Prelude.Result.{Result, ok, err, is_ok}
use nomad_temporal_jobs.Prelude.Text.{Text, is_empty}
use nomad_temporal_jobs.Runner.Config.{
  RepoConfig, ProfileRule, match_profile, is_vault_mode, Configs,
}
use nomad_temporal_jobs.Runner.Count.{Counts, count_of}
use nomad_temporal_jobs.Runner.Buckets.{RunnerBucket, Buckets}

-- `RunnerSpec` of runnerscaler/workflows/handle_job.go
pub record RunnerSpec : Type 0 where
  pub repo : Text
  pub labels : List Text
  pub job : Text
  pub image : Text
  pub mint_token : Bool
  pub vault_secret : Text
  pub reap_after : ℤ
  pub mode : Text
  pub forgejo_url : Text
  pub vault_path : Text

unfoldable pub register_secret : RepoConfig → Text
register_secret rc =
    if is_vault_mode rc.mode
    then (if is_empty rc.register_vault_path then rc.vault_path else rc.register_vault_path)
    else []

-- The spec that `startRunnerChild` builds.
unfoldable pub runner_spec : Text → List Text → RepoConfig → ℤ → RunnerSpec
unfolding register_secret
runner_spec repo labels rc reap_after =
    let rule = match_profile rc.profiles labels in
    record {
      repo = repo;
      labels = labels;
      job = rule.job;
      image = rule.image;
      mint_token = not (is_vault_mode rc.mode);
      vault_secret = register_secret rc;
      reap_after = reap_after;
      mode = rc.mode;
      forgejo_url = rc.forgejo_url;
      vault_path = rc.vault_path;
    }

-- The cap of a bucket's pool, 0 or less for none.
unfoldable pub pool_limit : RepoConfig → List Text → ℤ
pool_limit rc labels =
    let limit = (match_profile rc.profiles labels).max_concurrent in
    if eqb_ℤ limit (pos 0) then rc.max_concurrent else limit

-- `needed`, clamped. The loop `for range needed` makes `pos_part` of it rounds.
unfoldable pub clamp_needed : ℕ → ℕ → ℤ → ℤ
clamp_needed queued active limit =
    let needed = pos queued -ℤ pos active in
    if ltb_ℤ (pos 0) limit && ltb_ℤ (limit -ℤ pos active) needed
    then limit -ℤ pos active
    else needed

pub record Child : Type 0 where
  pub seq : ℕ
  pub spec : RunnerSpec
  pub started : Bool

pub record Tick : Type 0 where
  pub seq : ℕ
  pub queued_jobs : ℕ
  pub active_runners : ℕ
  pub runners_started : ℕ
  pub children : List Child

abbrev pub first_tick : Tick
first_tick = record {
  seq = 0;
  queued_jobs = 0;
  active_runners = 0;
  runners_started = 0;
  children = [];
}

-- Whether a child with this sequence number and spec could be started is the server's answer.
module _ (start_child : ℕ → RunnerSpec → Result (Unit {0})) where
  unfoldable pub start_one : RunnerSpec → Tick → Tick
  start_one spec t =
      let started = is_ok (start_child t.seq spec) in
      record t {
        seq = suc t.seq;
        runners_started = if started then suc t.runners_started else t.runners_started;
        children = t.children ++ (record { seq = t.seq; spec = spec; started = started } ∷ []);
      }

  unfoldable pub start_children : ℕ → RunnerSpec → Tick → Tick
  start_children zero spec t = t
  start_children (suc n) spec t = start_children n spec (start_one spec t)

  -- One round of the loop over the buckets.
  unfoldable pub top_up : Counts → Configs → ℤ → Text → RunnerBucket → Tick → Tick
  unfolding start_children
  top_up counts cfgs reap_after key b t =
      let active = count_of counts key in
      let rc = cfgs b.repo in
      start_children (pos_part (clamp_needed b.queued active (pool_limit rc b.labels)))
        (runner_spec b.repo b.labels rc reap_after)
        (record t {
          queued_jobs = t.queued_jobs + b.queued;
          active_runners = t.active_runners + active;
        })

  unfoldable pub dispatch_shortfall : Counts → Configs → ℤ → Buckets → Tick → Tick
  dispatch_shortfall counts cfgs reap_after [] t = t
  dispatch_shortfall counts cfgs reap_after ((key, b) ∷ m) t =
      dispatch_shortfall counts cfgs reap_after m (top_up counts cfgs reap_after key b t)
