-- ===== src/Runner/Config.antt =====
-- The configuration of the runner scaler and the values that travel between its workflows and
-- activities (runnerscaler/activities/activities.go, runnerscaler/workflows).
use nomad_temporal_jobs.Prelude.{ℕ, ℤ, pos, Bool, ◌||◌, List, [], ◌∷◌, ◌++◌, if◌then◌else◌}
use nomad_temporal_jobs.Prelude.Text.{Text, codes, text_eq, contains, is_empty}

-- `ModeVault`, `ModeForgejo`. Any other mode is app-mode.
abbrev pub mode_vault : Text
mode_vault = codes "vault"

abbrev pub mode_forgejo : Text
mode_forgejo = codes "forgejo"

pub record ProfileRule : Type 0 where
  pub label : Text
  pub job : Text
  pub image : Text
  pub max_concurrent : ℤ

pub record RepoConfig : Type 0 where
  pub mode : Text
  pub vault_path : Text
  pub forgejo_url : Text
  pub register_vault_path : Text
  pub profiles : List ProfileRule
  pub max_concurrent : ℤ

-- `git.QueuedJob`
pub record QueuedJob : Type 0 where
  pub id : ℕ
  pub run_id : ℕ
  pub name : Text
  pub labels : List Text

abbrev pub zero_rule : ProfileRule
zero_rule = record { label = []; job = []; image = []; max_concurrent = pos 0 }

abbrev pub zero_config : RepoConfig
zero_config = record {
  mode = [];
  vault_path = [];
  forgejo_url = [];
  register_vault_path = [];
  profiles = [];
  max_concurrent = pos 0;
}

unfoldable pub match_profile : List ProfileRule → List Text → ProfileRule
match_profile [] labels = zero_rule
match_profile (rule ∷ rules) labels =
    let rest = match_profile rules labels in if contains labels rule.label then rule else rest

unfoldable pub is_vault_mode : Text → Bool
is_vault_mode mode = text_eq mode mode_vault

-- The Go map of repository configurations. A missing key reads as the zero value.
unfoldable pub repo_config : List (Text × RepoConfig) → Text → RepoConfig
repo_config [] repo = zero_config
repo_config ((name, rc) ∷ m) repo =
    let rest = repo_config m repo in if text_eq name repo then rc else rest

-- Such a map as its readers see it.
abbrev pub Configs : Type 0
Configs = Text → RepoConfig

-- One more distinct, non-empty job: the `seen` maps of the loops hold just the collected jobs.
unfoldable pub push_new : List Text → Text → List Text
push_new jobs j = if is_empty j || contains jobs j then jobs else jobs ++ (j ∷ [])

unfoldable pub rule_jobs : List ProfileRule → List Text → List Text
rule_jobs [] jobs = jobs
rule_jobs (rule ∷ rules) jobs = rule_jobs rules (push_new jobs rule.job)

unfoldable pub profile_jobs : List Text → Configs → List Text → List Text
profile_jobs [] cfgs jobs = jobs
profile_jobs (repo ∷ repos) cfgs jobs =
    profile_jobs repos cfgs (rule_jobs (cfgs repo).profiles jobs)
