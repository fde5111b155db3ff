-- ===== src/Security.antt =====
-- internal/findings: the security checks of an account.
pub mod Types
pub mod Policy
pub mod Groups
pub mod Storage
pub mod Checks
pub mod Gate
pub mod Ports
pub mod Clean
pub mod Report
mod Examples
