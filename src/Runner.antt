-- ===== src/Runner.antt =====
-- The runner scaler: runnerscaler/workflows and runnerscaler/activities.
pub mod Config
pub mod Defaults
pub mod Keys
pub mod Count
pub mod Buckets
pub mod Shortfall
pub mod Dispatch
pub mod Queue
pub mod Child
pub mod Modes
pub mod Poll
