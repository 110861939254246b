-- ===== src/Nomad.antt =====
-- The Nomad client: shared/client/nomad/nomad.go. What Nomad's API answers is a parameter.
pub mod Alloc
pub mod Wait
pub mod Images
pub mod Nodes
pub mod Slots
pub mod Client
