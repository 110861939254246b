-- ===== src/Runner/Keys.antt =====
-- The reconciliation key of a (repository, labels) pair, and the reading of dispatch metadata back
-- into one (runnerscaler/activities/activities.go; `RunnerSlot` of shared/client/nomad/nomad.go).
pub mod RoundTrip
use nomad_temporal_jobs.Prelude.{List, [], ◌∷◌, ◌++◌, if◌then◌else◌}
use nomad_temporal_jobs.Prelude.Text.{
  Text, codes, is_empty, join, split, sort_strings, trim_prefix, trim_right, equal_fold,
}
use nomad_temporal_jobs.Runner.Config.{mode_forgejo}

abbrev pub github_root : Text
github_root = codes "https://github.com/"

pub record RunnerSlot : Type 0 where
  pub repo_url : Text
  pub labels : Text

unfoldable pub runner_bucket_key : Text → List Text → Text
runner_bucket_key repo labels = repo ++ (b'|' ∷ join b',' (sort_strings labels))

unfoldable pub repo_from_url : Text → Text
repo_from_url url = trim_prefix url github_root

unfoldable pub split_labels : Text → List Text
split_labels s = if is_empty s then [] else split b',' s

-- `RunnerBucketKey(repoFromURL(s.RepoURL), splitLabels(s.Labels))`
unfoldable pub slot_key : RunnerSlot → Text
slot_key s = runner_bucket_key (repo_from_url s.repo_url) (split_labels s.labels)

-- The `repo_url` that `DispatchRunner` writes.
unfoldable pub dispatch_repo_url : Text → Text → Text → Text
dispatch_repo_url mode forgejo_url repo =
    if equal_fold mode mode_forgejo
    then trim_right b'/' forgejo_url ++ (b'/' ∷ repo)
    else github_root ++ repo

-- The slot that the metadata of a dispatched runner reads back as.
unfoldable pub dispatched_slot : Text → Text → Text → List Text → RunnerSlot
dispatched_slot mode forgejo_url repo labels = record {
  repo_url = dispatch_repo_url mode forgejo_url repo;
  labels = join b',' labels;
}
