-- ===== src/Examples.antt =====
-- The theorems at concrete inputs.
mod FanOut
mod Scaler
mod Runners
mod Nodes
mod Stores
mod Tokens
mod Certs
mod Cluster
mod Hosts
mod Postgres
mod Dumps
mod Services
