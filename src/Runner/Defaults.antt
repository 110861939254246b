-- ===== src/Runner/Defaults.antt =====
-- The keys that the activities of the scaler work with: `New` of
-- runnerscaler/activities/activities.go.
use nomad_temporal_jobs.Prelude.{if◌then◌else◌}
use nomad_temporal_jobs.Prelude.Text.{Text, codes, is_empty}

pub record ScalerKeys : Type 0 where
  pub config_key : Text
  pub runner_job_id : Text

unfoldable pub with_defaults : ScalerKeys → ScalerKeys
with_defaults cfg = record {
  config_key = if is_empty cfg.config_key then codes "runners/config" else cfg.config_key;
  runner_job_id = if is_empty cfg.runner_job_id then codes "ci-runner" else cfg.runner_job_id;
}
