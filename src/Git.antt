-- ===== src/Git.antt =====
-- The client of the GitHub App: shared/client/git/.
pub mod App
pub mod FromVault
