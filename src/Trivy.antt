-- ===== src/Trivy.antt =====
-- The vulnerability scan: trivyscan/.
pub mod Report
pub mod Scan
pub mod Config
