-- ===== src/Maintenance.antt =====
-- The maintenance worker: maintenance/, and the sweeps of shared/client/ssh that it calls.
pub mod Bytes
pub mod Saga
pub mod Steps
pub mod RegistryGc
pub mod AptlyCleanup
pub mod NodeCleanup
pub mod Postgres
