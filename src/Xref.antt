-- ===== src/Xref.antt =====
-- internal/xref: the where-used query and the bidirectional walk over collected references.
pub mod Types
pub mod Ident
pub mod Kinds
pub mod Index
pub mod Walk
pub mod Scan
pub mod Advice
mod Examples
mod ScanExamples
