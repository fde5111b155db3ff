-- ===== src/Inventory.antt =====
-- Resources and account snapshots: internal/acctsnap and internal/summary.
pub mod Types
pub mod Dedupe
pub mod Diff
mod Examples
