-- ===== src/Archive/Provenance.antt =====
-- src/storage/archive.rs, the checks of what was measured where: `check_emulation`,
-- `check_host_and_arch` and `check_source_trees`. Each gives the refusals that it pushes.
use libviprs_bench.Base.{
  ℕ, ◌+◌, Bool, true, false, not, ◌||◌, String, List, [], ◌∷◌, ◌++◌, Option, none, some,
  if◌then◌else◌, ◌&◌, show, join, length, map,
}
use libviprs_bench.Json.{Value, bool, string, array, get, as_str, elements, ◌>>?◌}
use libviprs_bench.Crates.{Crates}
use libviprs_bench.Integrity.{is_empty}
use libviprs_bench.Archive.Document.{Refusal, refuse, at, non_empty_str, cells, cell_name, describe}

abbrev pub is_true : Option Value → Bool
is_true (some (bool true)) = true
is_true _ = false

abbrev pub is_absent : Option String → Bool
is_absent none = true
is_absent (some _) = false

-- `for (i, x) in xs.iter().enumerate()`, from the index `i` on.
unfoldable pub enumerate : {B : Type 0} → (ℕ → Value → List B) → ℕ → List Value → List B
enumerate f i [] = []
enumerate f i (v ∷ vs) = f i v ++ enumerate f (i + 1) vs

module _ (crates : Crates) where
  open crates use {fmt, serde}

  abbrev shown : Option Value → String
  shown = describe serde.to_string

  abbrev text_or : String → Option String → String
  text_or d none = d
  text_or d (some s) = s

  evidence_of : Value → String
  evidence_of e =
      text_or "?" (get e "source" >>? as_str) & "=" & text_or "?" (get e "verdict" >>? as_str)

  evidence_line : Option Value → String
  evidence_line (some (array vs)) =
      if is_empty (elements vs)
      then "no evidence recorded"
      else "evidence: " & join ", " (map evidence_of (elements vs))
  evidence_line _ = "no evidence recorded"

  unfoldable pub emulation_evidence_line : Value → String
  unfolding evidence_line evidence_of at
  emulation_evidence_line doc = evidence_line (at doc "provenance.emulationEvidence")

  unfoldable pub refuse_emulated : Value → Option Value → List Refusal
  refuse_emulated doc (some (bool false)) = []
  refuse_emulated doc (some (bool true)) =
      refuse "emulated" (
        "the run was instruction-translated, and its timings describe the translator as much as "
        & "the code ("
        & emulation_evidence_line doc
        & ")")
      ∷ []
  refuse_emulated doc (some (string s)) =
      refuse "emulated" (
        "the probe answered "
        & fmt.debug s
        & " rather than observing either way, so nothing in "
        & "this document can settle whether its numbers were translated ("
        & emulation_evidence_line doc
        & ")")
      ∷ []
  refuse_emulated doc other =
      refuse "emulated" (
        "provenance.emulated is "
        & shown other
        & ", so this document records no platform at all, "
        & "which is the defect docs/pmtiles-benchmarks.md has")
      ∷ []

  unfoldable pub check_emulation : Value → List Refusal
  unfolding refuse_emulated
  check_emulation doc = refuse_emulated doc (at doc "provenance.emulated")

  unfoldable pub check_host_field : Value → String → List Refusal
  check_host_field doc path =
      if is_absent (non_empty_str doc path)
      then refuse "host-arch" (
          path
          & " is "
          & shown (at doc path)
          & ", so the archive cannot tell this machine's "
          & "numbers from any other's")
        ∷ []
      else []

  unfoldable pub check_host_and_arch : Value → List Refusal
  unfolding check_host_field
  check_host_and_arch doc =
      check_host_field doc "provenance.os"
      ++ check_host_field doc "provenance.arch"
      ++ check_host_field doc "provenance.cpuModel"

  unfoldable pub refuse_dirty : String → String → Option Value → List Refusal
  refuse_dirty label dirty_path (some (bool _)) = []
  refuse_dirty label dirty_path other =
      refuse "dirty" (
        dirty_path
        & " is "
        & shown other
        & " for "
        & label
        & "; a missing dirty flag is not a "
        & "clean tree")
      ∷ []

  -- One round of the loop over the two trees.
  unfoldable pub check_tree : Value → String → String → String → List Refusal
  unfolding refuse_dirty
  check_tree doc label commit_path dirty_path =
      (if is_absent (non_empty_str doc commit_path)
        then refuse "commit" (
            commit_path
            & " is "
            & shown (at doc commit_path)
            & " for "
            & label
            & ", so this run "
            & "cannot be tied to a source tree. A linked git worktree bind-mounted into a container, "
            & "a tree read through a share that trips git's safe.directory check, and a git-less "
            & "tarball all produce exactly this, and all three are fixed from the environment rather "
            & "than by relaxing the rule")
          ∷ []
        else [])
      ++ refuse_dirty label dirty_path (at doc dirty_path)

  unfoldable pub unstamped_cell : ℕ → Value → List String
  unstamped_cell i cell = if not (is_true (get cell "dirty")) then cell_name i cell ∷ [] else []

  unfoldable pub check_stamps : Value → List Refusal
  unfolding unstamped_cell
  check_stamps doc =
      let unstamped = enumerate unstamped_cell 0 (cells doc) in
      if is_empty unstamped
      then []
      else refuse "dirty-not-stamped" (
          "provenance.allowDirty is true but "
          & show (length unstamped)
          & " of "
          & show (length (cells doc))
          & " cells do not carry dirty: true ("
          & join ", " unstamped
          & "), so a reader quoting one cell would not know")
        ∷ []

  unfoldable pub check_dirt : Value → List Refusal
  unfolding check_stamps
  check_dirt doc =
      if not (is_true (at doc "provenance.dirty") || is_true (at doc "provenance.library.dirty"))
      then []
      else if not (is_true (at doc "provenance.allowDirty"))
      then refuse "dirty-not-allowed" (
          "a tree is dirty and provenance.allowDirty is not true, so these numbers describe a "
          & "source state that exists on exactly one machine and cannot be recovered")
        ∷ []
      else check_stamps doc

  unfoldable pub check_source_trees : Value → List Refusal
  unfolding check_tree check_dirt
  check_source_trees doc =
      check_tree doc "the harness" "provenance.commit" "provenance.dirty"
      ++ check_tree doc "the measured library" "provenance.library.commit"
          "provenance.library.dirty"
      ++ check_dirt doc
