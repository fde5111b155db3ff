-- ===== src/Vpc.antt =====
-- internal/vpctui: the pure analyses over a snapshot of a VPC.
pub mod Types
pub mod Match
pub mod Explain
pub mod Lookup
pub mod Groups
pub mod Nacl
pub mod Route
pub mod Trace
pub mod NaclExplain
pub mod Findings
pub mod Effective
pub mod CrossReference
pub mod Exposure
pub mod SnapshotDiff
mod Examples
mod LintExamples
