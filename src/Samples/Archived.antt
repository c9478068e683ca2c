-- ===== src/Samples/Archived.antt =====
-- The theorems about the archive, at the sample document in an empty directory.
use libviprs_bench.Base.{
  Bool, true, false, String, List, [], ◌∷◌, Option, none, some, ◌≡◌, ◌↔◌, refl, Result, ok, err,
  str_eq, All, ◌||◌,
}
use libviprs_bench.Json.{Value, Map, object, get, ◌>>?◌}
use libviprs_bench.Crates.{Digests}
use libviprs_bench.Integrity.{
  VerifyReport, holds, verify_text, verify, compute_digests, parse_document,
}
use libviprs_bench.Integrity.Verify.{block_names, verify-holds, verify-edit}
use libviprs_bench.Integrity.Same.{compute_digests-same}
use libviprs_bench.Archive.Seal.{Sealed, seal}
use libviprs_bench.Archive.Seal.Verified.{seal_verifies, sealed_map-SameEvidence}
use libviprs_bench.Archive.Store.{World, FilePath, write_atomically}
use libviprs_bench.Archive.Store.Filed.{ArchiveEntry, archive_text, document_path, file}
use libviprs_bench.Archive.Admit.{admit_text}
use libviprs_bench.Archive.RunId
use libviprs_bench.Archive.RunId.Evidence.{run_id-same}
use libviprs_bench.Archive.Admit.{admit}
use libviprs_bench.Archive.Admission.{
  Admitted, IsAdmissible, admit-none, check_cells-none, check_emulation-none,
}
use libviprs_bench.Archive.Document.{Refusal, refuse, at, cells}
use libviprs_bench.Archive.Provenance.{check_emulation}
use libviprs_bench.Archive.Measured.{check_cells}
use libviprs_bench.Json.Keys.{has}
use libviprs_bench.Json.{lookup, bool}
use libviprs_bench.Canonical.{Canonical}
use libviprs_bench.Integrity.{is_empty}
use libviprs_bench.Archive.Store.{path_eq, refused}
use libviprs_bench.Base.{not, if◌then◌else◌}
use libviprs_bench.Archive.Store.Archived.{archive_text-written}
use libviprs_bench.Archive.Store.Kept.{archive_text-keeps}
use libviprs_bench.Archive.Store.Reported.{write_atomically-ok}
use libviprs_bench.Samples.Documents.{
  raw_map, raw_map-IsUnique, filed_map, filed_map-IsUnique, now, run_name, digest_zero,
  digests_zero,
}
use libviprs_bench.Samples.Serde.{crates, planner, world}

abbrev filed_entry : ArchiveEntry
filed_entry = record {
  run_id = run_name;
  path = document_path run_name;
  document_digest = digest_zero;
  written = true;
}

admitted : admit_text crates planner "raw" ≡ ok []
unfolding libviprs_bench.Archive.Admit.admit_text libviprs_bench.Integrity.parse_document
    libviprs_bench.Archive.Admit.admit libviprs_bench.Archive.Provenance.check_emulation
    libviprs_bench.Archive.Document.at libviprs_bench.Json.lookup
    libviprs_bench.Archive.Provenance.check_host_and_arch
    libviprs_bench.Archive.Document.non_empty_str
    libviprs_bench.Archive.Provenance.check_source_trees libviprs_bench.Archive.Build.check_build
    libviprs_bench.Archive.Build.check_filesystem
    libviprs_bench.Archive.Measured.check_invocation_and_reps
    libviprs_bench.Samples.Equality.value_eqb libviprs_bench.Archive.Provenance.enumerate
    libviprs_bench.Archive.Document.cells libviprs_bench.Archive.Measured.check_cells
    libviprs_bench.Archive.Measured.check_profile_walk
    libviprs_bench.Archive.Admit.integrity_refusals
admitted = refl

named : RunId.run_id crates (object raw_map) ≡ ok run_name
unfolding libviprs_bench.Archive.RunId.run_id libviprs_bench.Archive.RunId.host8
    libviprs_bench.Archive.Document.at libviprs_bench.Json.lookup
    libviprs_bench.Archive.Document.non_empty_str libviprs_bench.Archive.RunId.compact_timestamp
    libviprs_bench.Sha256.sha256_hex libviprs_bench.Sha256.as_bytes
named = refl

sealed : seal crates now (object raw_map) ≡ ok (record { text = "filed\n"; digests = digests_zero })
unfolding seal compute_digests libviprs_bench.Integrity.digest
    libviprs_bench.Canonical.canonical_json libviprs_bench.Canonical.write_canonical
    libviprs_bench.Json.lookup libviprs_bench.Canonical.write_object libviprs_bench.Base.is_ascii
    libviprs_bench.Canonical.canonical_number libviprs_bench.Integrity.document_evidence
    libviprs_bench.Samples.Equality.value_eqb libviprs_bench.Archive.Seal.sealed_map
    libviprs_bench.Sha256.sha256_hex
sealed = refl

abbrev after : World
after =
    (file crates run_name (record { text = "filed\n"; digests = digests_zero }) (object raw_map)
      world).1

filed :
    file crates run_name
      (record { text = "filed\n"; digests = digests_zero })
      (object raw_map)
      world
    ≡ (ok filed_entry, after)
unfolding libviprs_bench.Archive.Store.Filed.file libviprs_bench.Archive.Store.create_dir_all
    libviprs_bench.Archive.Store.write_atomically libviprs_bench.Archive.Store.Index.update_index
    libviprs_bench.Archive.Store.write libviprs_bench.Archive.Store.rename
    libviprs_bench.Archive.Store.temporary libviprs_bench.Archive.Store.Index.index_row
    libviprs_bench.Archive.Store.Index.has_row libviprs_bench.Archive.Store.Index.sort_rows
    libviprs_bench.Archive.Store.Index.add_row libviprs_bench.Archive.Store.Index.read_rows
    libviprs_bench.Archive.Store.clean_up libviprs_bench.Archive.Document.at
    libviprs_bench.Json.lookup libviprs_bench.Samples.Equality.value_eqb
    libviprs_bench.Archive.Store.Filed.file_new libviprs_bench.Base.show
filed = refl

archived : archive_text crates planner now "raw" world ≡ (ok filed_entry, after)
unfolding archive_text libviprs_bench.Integrity.parse_document
    libviprs_bench.Archive.Store.create_dir_all
archived = rw (admitted, named, sealed) filed

-- A directory with a document of another run.
abbrev other_run : FilePath
other_run = document_path "other-run"

no_refusal : admit crates planner (object raw_map) ≡ []
unfolding libviprs_bench.Archive.Admit.admit_text libviprs_bench.Integrity.parse_document
    libviprs_bench.Archive.Admit.admit libviprs_bench.Archive.Provenance.check_emulation
    libviprs_bench.Archive.Document.at libviprs_bench.Json.lookup
    libviprs_bench.Archive.Provenance.check_host_and_arch
    libviprs_bench.Archive.Document.non_empty_str
    libviprs_bench.Archive.Provenance.check_source_trees libviprs_bench.Archive.Build.check_build
    libviprs_bench.Archive.Build.check_filesystem
    libviprs_bench.Archive.Measured.check_invocation_and_reps
    libviprs_bench.Samples.Equality.value_eqb libviprs_bench.Archive.Provenance.enumerate
    libviprs_bench.Archive.Document.cells libviprs_bench.Archive.Measured.check_cells
    libviprs_bench.Archive.Measured.check_profile_walk
    libviprs_bench.Archive.Admit.integrity_refusals
no_refusal = refl

computed : compute_digests crates (object raw_map) ≡ ok digests_zero
unfolding compute_digests libviprs_bench.Integrity.digest libviprs_bench.Canonical.canonical_json
    libviprs_bench.Canonical.write_canonical libviprs_bench.Json.lookup
    libviprs_bench.Canonical.write_object libviprs_bench.Base.is_ascii
    libviprs_bench.Canonical.canonical_number libviprs_bench.Integrity.document_evidence
    libviprs_bench.Samples.Equality.value_eqb libviprs_bench.Archive.Seal.sealed_map
    libviprs_bench.Sha256.sha256_hex
computed = refl

wrote :
    write_atomically other_run "text" world ≡ (ok tt, (write_atomically other_run "text" world).1)
unfolding write_atomically libviprs_bench.Archive.Store.write libviprs_bench.Archive.Store.rename
    libviprs_bench.Archive.Store.temporary libviprs_bench.Base.show
    libviprs_bench.Archive.Store.clean_up
wrote = refl

seal_verifies_example :
    (stored : Map) × (parse_document crates "filed\n" ≡ ok (object stored))
    × (compute_digests crates (object raw_map) ≡ ok digests_zero)
    × (compute_digests crates (object stored) ≡ ok digests_zero)
    × ((lookup "integrity" stored >>? crates.seals.from_value) ≡ some digests_zero)
    × (verify_text crates "filed\n"
        ≡ ok (record {
          recomputed = digests_zero;
          stated = some digests_zero;
          moved = [];
          unchanged = block_names;
          malformed_integrity = false;
        }))
seal_verifies_example = seal_verifies crates now raw_map raw_map-IsUnique sealed

archive_text-written_example :
    (value : Value) × (stored : Value) × (content : String) × (report : VerifyReport)
    × (digests : Digests) × (parse_document crates "raw" ≡ ok value)
    × (RunId.run_id crates value ≡ ok run_name)
    × (document_path run_name ≡ document_path run_name)
    × (after.files (document_path run_name) ≡ some content)
    × (parse_document crates content ≡ ok stored)
    × (RunId.run_id crates stored ≡ ok run_name)
    × (compute_digests crates value ≡ ok digests)
    × (compute_digests crates stored ≡ ok digests)
    × ((get stored "integrity" >>? crates.seals.from_value) ≡ some digests)
    × (digest_zero ≡ digests.document)
    × (verify_text crates content ≡ ok report)
    × (holds report ≡ true)
archive_text-written_example = archive_text-written crates planner now "raw" world archived refl

abbrev occupied : World
occupied = record world { files = λ p. if path_eq other_run p then some "theirs" else none }

archive_text-keeps_example :
    (archive_text crates planner now "raw" occupied).1.files other_run ≡ some "theirs"
archive_text-keeps_example =
    archive_text-keeps crates planner now "raw" occupied other_run refl refl refl

admit-none_example : Admitted (object raw_map)
admit-none_example = admit-none crates planner (object raw_map) no_refusal

compute_digests-same_example : compute_digests crates (object filed_map) ≡ ok digests_zero
unfolding libviprs_bench.Archive.Seal.sealed_map
compute_digests-same_example =
    compute_digests-same crates raw_map filed_map raw_map-IsUnique filed_map-IsUnique
      (sealed_map-SameEvidence crates now digests_zero raw_map) computed

run_id-same_example : RunId.run_id crates (object raw_map) ≡ RunId.run_id crates (object filed_map)
unfolding libviprs_bench.Archive.Seal.sealed_map
run_id-same_example =
    run_id-same crates raw_map filed_map (sealed_map-SameEvidence crates now digests_zero raw_map)

abbrev good_report : VerifyReport
good_report = record {
  recomputed = digests_zero;
  stated = some digests_zero;
  moved = [];
  unchanged = block_names;
  malformed_integrity = false;
}

computed_filed : compute_digests crates (object filed_map) ≡ ok digests_zero
unfolding compute_digests libviprs_bench.Integrity.digest libviprs_bench.Canonical.canonical_json
    libviprs_bench.Canonical.write_canonical libviprs_bench.Json.lookup
    libviprs_bench.Canonical.write_object libviprs_bench.Base.is_ascii
    libviprs_bench.Canonical.canonical_number libviprs_bench.Integrity.document_evidence
    libviprs_bench.Samples.Equality.value_eqb libviprs_bench.Archive.Seal.sealed_map
    libviprs_bench.Sha256.sha256_hex
computed_filed = refl

verified : verify crates (object filed_map) ≡ ok good_report
unfolding verify libviprs_bench.Json.lookup
verified = rw computed_filed refl

verify-holds_example :
    (compute_digests crates (object filed_map) ≡ ok digests_zero)
    × ((holds good_report ≡ true)
        ↔ ((get (object filed_map) "integrity" >>? crates.seals.from_value) ≡ some digests_zero))
verify-holds_example = verify-holds crates (object filed_map) verified

verify-edit_example :
    (compute_digests crates (object filed_map) ≡ ok digests_zero)
    × (has "runners" good_report.moved ≡ false)
    × (has "measurements" good_report.moved ≡ false)
    × (has "cells" good_report.moved ≡ not (str_eq digest_zero digest_zero))
    × (has "document" good_report.moved ≡ not (str_eq digest_zero digest_zero))
unfolding lookup
verify-edit_example =
    verify-edit crates (object raw_map) (object filed_map) computed refl verified refl refl

check_cells-none_example :
    (check_cells crates (object raw_map) ≡ [])
    ↔ ((is_empty (cells (object raw_map)) ≡ false) × All IsAdmissible (cells (object raw_map)))
check_cells-none_example = check_cells-none crates (object raw_map)

check_emulation-none_example :
    (check_emulation crates (object raw_map) ≡ [])
    ↔ (at (object raw_map) "provenance.emulated" ≡ some (bool false))
check_emulation-none_example = check_emulation-none crates (object raw_map)

abbrev written : World
written = (write_atomically other_run "text" world).1

write_atomically-ok_example : written.files other_run ≡ some "text"
write_atomically-ok_example = write_atomically-ok other_run "text" world wrote
