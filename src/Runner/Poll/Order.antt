-- ===== src/Runner/Poll/Order.antt =====
-- A tick does not depend on the iteration order of the configuration map.
use mathlib.Core.List.{Perm}
use nomad_temporal_jobs.Prelude.{ℤ, ◌≡◌, List, fun_ext}
use nomad_temporal_jobs.Prelude.Result.{ok}
use nomad_temporal_jobs.Prelude.Text.{Text, sort_strings-eq_of_perm}
use nomad_temporal_jobs.Runner.Config.{RepoConfig, repo_config}
use nomad_temporal_jobs.Runner.Poll.{Answers, names, poll_and_dispatch}

-- Two listings of one Go map: the same keys in any order, and the same value at each.
pub record IsSameMap (m n : List (Text × RepoConfig)) : Type 0 where
  pub keys : Perm (names m) (names n)
  pub values : (repo : Text) → repo_config m repo ≡ repo_config n repo

-- Whatever the order in which the map of configurations is walked, the tick has the same result and
-- asks for the same children in the same order.
pub poll_and_dispatch-IsSameMap :
    {m n : List (Text × RepoConfig)} (a : Answers) (reap_after : ℤ)
    → IsSameMap m n
    → poll_and_dispatch (ok m) a reap_after ≡ poll_and_dispatch (ok n) a reap_after
unfolding poll_and_dispatch
poll_and_dispatch-IsSameMap a reap_after h = rw (sort_strings-eq_of_perm h.keys, fun_ext h.values)
