-- ===== src/Ssh/Host.antt =====
-- Commands on a remote host: shared/client/ssh/ssh.go.
pub mod Shell
pub mod Credentials
pub mod Du
pub mod Connection
