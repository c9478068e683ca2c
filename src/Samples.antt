-- ===== src/Samples.antt =====
-- A concrete choice for every library behind the archive, and the documents of the tests.
pub mod Equality
pub mod Libraries
pub mod Documents
pub mod Serde
pub mod Archived
pub mod Parts
pub mod Measured
pub mod Origins
pub mod Releases
