-- ===== src/Examples/Runners.antt =====
-- Dispatches, lives of runners and whole ticks at concrete inputs.
use mathlib.Core.List.{perm_append_comm}
use nomad_temporal_jobs.Prelude.{
  subst, ◌≤◌, ◌≡◌, ◌≢◌, refl, pos, ltb_ℤ, true, false, [], ◌∷◌, length, All, arith, if◌then◌else◌,
}
use nomad_temporal_jobs.Prelude.Result.{external, ok, err, is_ok, context}
use nomad_temporal_jobs.Prelude.Text.{
  Text, codes, text_eq, text_eq_iff, is_empty, equal_fold, to_lower, to_lower_byte,
}
use nomad_temporal_jobs.Runner.Config.{mode_vault, zero_config, repo_config}
use nomad_temporal_jobs.Runner.Keys.{dispatched_slot}
use nomad_temporal_jobs.Runner.Shortfall.{RunnerSpec, runner_spec}
use nomad_temporal_jobs.Runner.Dispatch.{
  Client, app, Meta, Services, dispatch_job_id, dispatch_runner, minter_for, lister_for,
}
use nomad_temporal_jobs.Runner.Dispatch.Sent.{
  dispatches, mints, has, slot_of, dispatch_runner_sends,
}
use nomad_temporal_jobs.Runner.Child.{
  dispatch, wait_done, reap, Outcomes, dispatch_spec, reap_ceiling, handle_runner,
}
use nomad_temporal_jobs.Runner.Child.Life.{handle_runner_reaps}
use nomad_temporal_jobs.Runner.Modes.{poll_repo, vault_spelling_mints}
use nomad_temporal_jobs.Runner.Poll.{Answers, poll_and_dispatch}
use nomad_temporal_jobs.Runner.Poll.Order.{IsSameMap, poll_and_dispatch-IsSameMap}
use nomad_temporal_jobs.Examples.Scaler.{repo, labels, cfg, key, child_answers, jobs}

abbrev services : Services
services = record {
  runner_job_id = codes "runner";
  secret = λ path. ok (codes "t");
  client_ok = λ c. ok tt;
  queue = λ c owner name. ok jobs;
  token = λ c owner name. ok (codes "reg");
  dispatched = λ job meta. ok (codes "runner/dispatch-1");
}

abbrev spec : RunnerSpec
spec = runner_spec repo labels cfg (pos 0)

dispatch_runner_sends_example :
    let (r, log) = dispatch_runner services (dispatch_spec spec) [] in
    (length (dispatches log) ≤ 1)
    × (is_ok r ≡ true → length (dispatches log) ≡ 1)
    × All
        (λ (d : Text × Meta).
          (d.0 ≡ dispatch_job_id services (dispatch_spec spec))
          × (slot_of d.1
              ≡ dispatched_slot
                  (dispatch_spec spec).mode
                  (dispatch_spec spec).forgejo_url
                  (dispatch_spec spec).repo
                  (dispatch_spec spec).labels)
          × (has d.1.runner_token ≡ (dispatch_spec spec).mint_token)
          × (has d.1.runner_secret
              ≡ (if is_empty (dispatch_spec spec).vault_secret then false else true)))
        (dispatches log)
    × (mints log ≤ (if (dispatch_spec spec).mint_token then 1 else 0))
dispatch_runner_sends_example = dispatch_runner_sends services (dispatch_spec spec)

abbrev outcomes : Outcomes
outcomes = record {
  dispatched = λ d. ok (codes "id");
  waited = λ id. err (external "timeout");
  reaped = λ id. ok tt;
}

handle_runner_reaps_example :
    (ltb_ℤ (pos 0) (reap_ceiling spec.reap_after) ≡ true)
    × (handle_runner outcomes spec [] ≡ (
      context "reap runner" (ok tt),
      dispatch (dispatch_spec spec)
          ∷ wait_done (codes "id") (reap_ceiling spec.reap_after)
          ∷ reap (codes "id")
          ∷ [],
    ))
handle_runner_reaps_example = handle_runner_reaps outcomes spec

abbrev other : Text
other = codes "o/s"

abbrev answers : Answers
answers = record {
  list_queued = λ p. ok jobs;
  count_active = λ extra. ok ((key, 1) ∷ []);
  start_child = child_answers;
}

apart : text_eq other repo ≡ false
unfolding text_eq
apart = refl

repo_ne_other : (r : Text) → text_eq repo r ≡ true → text_eq other r ≡ false
repo_ne_other r p = subst (λ t. text_eq other t ≡ false) ((text_eq_iff repo r).0 p) apart

same_map :
    IsSameMap ((repo, cfg) ∷ (other, zero_config) ∷ []) ((other, zero_config) ∷ (repo, cfg) ∷ [])
unfolding repo_config
same_map = record {
  keys = perm_append_comm (repo ∷ []) (other ∷ []);
  values = λ r. ground (arith, repo_ne_other r);
}

poll_and_dispatch-IsSameMap_example :
    poll_and_dispatch (ok ((repo, cfg) ∷ (other, zero_config) ∷ [])) answers (pos 0)
    ≡ poll_and_dispatch (ok ((other, zero_config) ∷ (repo, cfg) ∷ [])) answers (pos 0)
poll_and_dispatch-IsSameMap_example = poll_and_dispatch-IsSameMap answers (pos 0) same_map

folds : equal_fold (codes "Vault") mode_vault ≡ true
unfolding equal_fold to_lower to_lower_byte text_eq
folds = refl

differs : codes "Vault" ≢ mode_vault
differs = ground arith

vault_spelling_mints_example :
    ((runner_spec repo labels cfg (pos 0)).mint_token ≡ true)
    × (minter_for services (dispatch_spec (runner_spec repo labels cfg (pos 0))) [] ≡ (ok app, []))
    × ((c : Client) → (lister_for services (poll_repo repo cfg) []).0 ≡ ok c → c ≢ app)
vault_spelling_mints_example = vault_spelling_mints services repo labels cfg (pos 0) folds differs
