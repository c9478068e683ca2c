-- ===== src/Archive.antt =====
-- src/storage/archive.rs: how a run's document is admitted, named, sealed and filed.
pub mod Document
pub mod Provenance
pub mod Build
pub mod Measured
pub mod Admit
pub mod Admission
pub mod RunId
pub mod Seal
pub mod Store
