-- ===== src/Lib.antt =====
-- Verification of libviprs-bench, a benchmark suite whose storage documents are archived.
--
-- A sweep measures cells and writes one JSON document. `archive_text` (src/storage/archive.rs) admits
-- the document or refuses it with every reason, derives the run's id from it, seals it with four
-- digests (src/storage/integrity.rs), writes it atomically under its id and adds a row to the index.
-- `verify_text` recomputes the digests of a filed document and names the blocks that moved.
--
-- The parts, with the files that model them:
--   Canonical, Integrity         src/storage/integrity.rs: canonical JSON, digests, `verify`
--   Sha256                       src/sha256.rs: the hexadecimal form and the streaming form
--   Archive.Document             src/storage/archive.rs: `at`, `non_empty_str`, `cell_name`
--   Archive.Provenance, .Build, .Measured, .Admit   the same file's admission checks, in its order
--   Archive.RunId, .Seal         the same file's `run_id`, `seal` and `seal_text`
--   Archive.Store                the same file's `archive_text`, `write_atomically`, `update_index`
--   Cells                        src/storage/cells.rs: cells, sources, profiles, the walk of a plan
--   Replicate                    src/storage/scenarios/replicate.rs: the schedule of the control
--   Emulation                    src/emulation.rs: the evidence of an instruction translator
--   Provenance                   src/provenance.rs: what a run records of its host, and its warnings
--   Pin                          src/pin_check.rs: the pinned libvips release against upstream's
--   Statistics                   src/storage/stats.rs: summaries, the bootstrap, the generator
--   StorageDocument              src/storage/document.rs: cells, the document, its stamps, its JSON
--   Scenarios                    src/storage/scenarios: mod.rs, concurrent_curve.rs, plan_order.rs,
--                                tileid_order.rs and write_split.rs
--   Attestation                  src/storage/attest.rs: a declared regime against what was seen
--   Modelled                     src/storage/model.rs: the costs of a declared model
--   Repetitions                  src/storage/mod.rs: `merge` and `agreed`, the runs of one scenario
--   Families                     src/family.rs: the benchmark families and `resolve`
--   Versions                     src/version_id.rs: the keys of a history's versions, in order
--   History                      src/lib.rs: the benchmark history and its migration
--   Json, Format, Planner        the types that these share, and the interfaces of the libraries
--   Base                         texts, decimals, splits, results and lists
--   Samples                      concrete libraries, and each theorem at a concrete input
--
-- State is passed explicitly. A directory is a function from paths to contents; a run of the archive
-- is a function from a `World` (the directory, which coming calls fail, the clock's readings) to a
-- result and a world. Which calls fail is any list of faults, and an interrupted write may leave any
-- text in the file that it was writing. Numbers are the native ones, an f64 is
-- its 64 bits. No loop takes fuel but the printing of a number, which has a round for each unit of
-- the number and so one for each digit: every other one is a structural recursion.
--
-- Parameters: serde_json (`Serde`, with the laws of its maps and of a round trip through its printed
-- text), the derived conversion of `Digests` (`Seals`), the printing of floats (`Fmt`), the hash of
-- the sha2 crate (`Hash`), the planner of the libviprs crate (`Planner`) and its `zxy_to_tileid`, the
-- arithmetic of floats (`Arith`), what the probes read (`Surroundings`, `Machine`, `BuildStamps`), and
-- the reader, the threads and the clock of a rung of the thread ladder (`Host`). The engine that writes
-- a pyramid is any program that asks the sink and goes on by its answers (`Run`).
--
-- Not modelled: the timed scenarios and engines, which drive libviprs, process spawning, the probes of
-- macOS, the timer's probe, report printing, and the JavaScript tools. `Path::exists` is taken to
-- answer, and the archive to be the only writer of its directory.
pub mod Archive
pub mod Attestation
pub mod Base
pub mod Canonical
pub mod Cells
pub mod Crates
pub mod Emulation
pub mod Families
pub mod Format
pub mod History
pub mod Integrity
pub mod Json
pub mod Modelled
pub mod Pin
pub mod Planner
pub mod Provenance
pub mod Repetitions
pub mod Replicate
pub mod Samples
pub mod Scenarios
pub mod Sha256
pub mod Statistics
pub mod StorageDocument
pub mod Versions
