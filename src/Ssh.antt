-- ===== src/Ssh.antt =====
-- Reclaiming space on a node over SSH: shared/client/ssh/.
pub mod Reclaim
pub mod Containerd
pub mod Docker
pub mod Host
pub mod Container
