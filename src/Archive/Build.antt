-- ===== src/Archive/Build.antt =====
-- src/storage/archive.rs, the checks of how the code was built and where it wrote: `check_build` and
-- `check_filesystem`.
use libviprs_bench.Base.{
  Bool, true, false, not, ◌&&◌, String, List, [], ◌∷◌, ◌++◌, Option, none, some, if◌then◌else◌,
  str_eq, ◌&◌,
}
use text.Mathlib.Text.{find?}
use libviprs_bench.Json.{Value, bool, as_str, ◌>>?◌}
use libviprs_bench.Crates.{Crates}
use libviprs_bench.Archive.Document.{Refusal, refuse, at, non_empty_str, describe}
use libviprs_bench.Archive.Provenance.{is_true, is_absent}

abbrev pub contains : String → String → Bool
contains s t = elim (find? s t) [ none ↦ false | some _ ↦ true ]

module _ (crates : Crates) where
  open crates use {fmt, serde}

  abbrev shown : Option Value → String
  shown = describe serde.to_string

  unfoldable pub refuse_assertions : Option Value → List Refusal
  refuse_assertions (some (bool false)) = []
  refuse_assertions (some (bool true)) =
      refuse "debug-build" (
        "debug assertions are on, so every bounds check and overflow check in the engine is in the "
        & "measurement and the numbers are of a build nobody ships")
      ∷ []
  refuse_assertions other =
      refuse "debug-build" (
        "provenance.node.debugAssertions is "
        & shown other
        & ", so this document does not say "
        & "whether it measured a release build")
      ∷ []

  unfoldable pub refuse_profile : Option String → List Refusal
  refuse_profile none =
      refuse "debug-build" (
        "provenance.node.buildProfile is absent, so the document does not say what it "
        & "measured")
      ∷ []
  refuse_profile (some profile) =
      if str_eq profile "release"
      then []
      else refuse "debug-build"
          ("the build profile is " & fmt.debug profile & " and only release is measurable")
        ∷ []

  unfoldable pub refuse_flag : String → String → List Refusal
  refuse_flag flags forbidden =
      if contains flags forbidden
      then refuse "perturbing-rustflags" (
          "RUSTFLAGS carries "
          & fmt.debug forbidden
          & " ("
          & fmt.debug flags
          & "), which changes "
          & "the code being timed")
        ∷ []
      else []

  unfoldable pub refuse_flags : Option String → List Refusal
  unfolding refuse_flag
  refuse_flags none = []
  refuse_flags (some flags) =
      refuse_flag flags "-C instrument-coverage"
      ++ refuse_flag flags "-Cinstrument-coverage"
      ++ refuse_flag flags "-Z"

  unfoldable pub check_build : Value → List Refusal
  unfolding refuse_assertions refuse_profile refuse_flags
  check_build doc =
      refuse_assertions (at doc "provenance.node.debugAssertions")
      ++ refuse_profile (non_empty_str doc "provenance.node.buildProfile")
      ++ refuse_flags (at doc "provenance.node.rustflags" >>? as_str)

  unfoldable pub refuse_scratch : Value → String → List Refusal
  refuse_scratch doc fs_type =
      (if is_absent (non_empty_str doc "provenance.filesystem.scratchDir")
        then refuse "filesystem" (
            "provenance.filesystem.scratchDir is absent, so the fsType above describes a directory "
            & "nobody can name")
          ∷ []
        else [])
      ++ (if str_eq fs_type "tmpfs" && not (is_true (at doc "provenance.filesystem.declaredTmpfs"))
          then refuse "tmpfs" (
              "the scratch directory is on tmpfs and the profile does not declare it; tmpfs is RAM "
              & "with a filesystem interface, so these numbers are a memcpy benchmark wearing a storage "
              & "benchmark's labels")
            ∷ []
          else [])

  unfoldable pub refuse_filesystem : Value → Option String → List Refusal
  unfolding refuse_scratch
  refuse_filesystem doc none =
      refuse "filesystem" (
        "provenance.filesystem.fsType is "
        & shown (at doc "provenance.filesystem.fsType")
        & ", so this document does not say what the scratch directory was on, and overlayfs, a "
        & "virtiofs bind mount and a real ext4 are three different benchmarks")
      ∷ []
  refuse_filesystem doc (some fs_type) = refuse_scratch doc fs_type

  unfoldable pub check_filesystem : Value → List Refusal
  unfolding refuse_filesystem
  check_filesystem doc = refuse_filesystem doc (non_empty_str doc "provenance.filesystem.fsType")
