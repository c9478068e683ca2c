-- ===== src/Archive/Admit.antt =====
-- src/storage/archive.rs: `admit`, `integrity_refusals` and `admit_text`.
use libviprs_bench.Base.{String, List, [], ◌∷◌, ◌++◌, map, not, if◌then◌else◌, ok, err, ◌>>=◌, ◌&◌}
use libviprs_bench.Json.{Value, get}
use libviprs_bench.Crates.{Crates}
use libviprs_bench.Planner.{Planner}
use libviprs_bench.Canonical.{Canonical}
use libviprs_bench.Integrity.{
  VerifyReport, parse_document, verify, holds, lines, show_error, non_null,
}
use libviprs_bench.Archive.Document.{Refusal, refuse}
use libviprs_bench.Archive.Provenance.{check_emulation, check_host_and_arch, check_source_trees}
use libviprs_bench.Archive.Build.{check_build, check_filesystem}
use libviprs_bench.Archive.Measured.{check_invocation_and_reps, check_cells, check_profile_walk}

module _ (crates : Crates) (planner : Planner) where
  open crates use {fmt}

  unfoldable pub admit : Value → List Refusal
  admit doc =
      check_emulation crates doc
      ++ check_host_and_arch crates doc
      ++ check_source_trees crates doc
      ++ check_build crates doc
      ++ check_filesystem crates doc
      ++ check_invocation_and_reps crates doc
      ++ check_cells crates doc
      ++ check_profile_walk crates planner doc

  refuse_report : Canonical VerifyReport → List Refusal
  unfolding lines show_error
  refuse_report (ok report) = if holds report then [] else map (refuse "integrity") (lines report)
  refuse_report (err e) =
      refuse "integrity"
        ("the document cannot be canonicalised, so it cannot be digested: " & show_error fmt e)
      ∷ []

  unfoldable pub integrity_refusals : Value → List Refusal
  unfolding refuse_report
  integrity_refusals raw =
      if not (non_null (get raw "integrity")) then [] else refuse_report (verify crates raw)

  unfoldable pub admit_text : String → Canonical (List Refusal)
  admit_text text = do
    value ← parse_document crates text
    ok (admit value ++ integrity_refusals value)
