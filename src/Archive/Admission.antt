-- ===== src/Archive/Admission.antt =====
-- src/storage/archive.rs: the admission checks, against what a document says of itself.
use libviprs_bench.Base.{
  append-empty, ℕ, ◌+◌, Bool, true, false, not, ◌||◌, ◌&&◌, String, List, [], ◌∷◌, ◌≡◌, ◌↔◌, refl,
  Option, none, some, arith, if◌then◌else◌, str_eq, str_eq_iff, All,
}
use libviprs_bench.Json.{Value, bool, get, as_str, ◌>>?◌}
use libviprs_bench.Crates.{Crates}
use libviprs_bench.Integrity.{is_empty}
use libviprs_bench.Archive.Document.{at, non_empty_str, cells}
use libviprs_bench.Archive.Provenance.{
  is_true, is_absent, enumerate, refuse_emulated, check_host_field, refuse_dirty, check_tree,
  check_dirt, check_stamps, unstamped_cell, check_emulation, check_host_and_arch,
  check_source_trees,
}
use libviprs_bench.Archive.Build.{
  check_build, check_filesystem, refuse_assertions, refuse_profile, refuse_flags, refuse_scratch,
  refuse_filesystem,
}
use libviprs_bench.Archive.Measured.{
  outcome_of, check_invocation_and_reps, check_cells, check_profile_walk, refuse_cell,
}
use libviprs_bench.Archive.Admit.{admit}
use libviprs_bench.Planner.{Planner}

-- The cell is attested if its outcome is ok, and says why if it is not.
abbrev pub admissible : Value → Bool
admissible cell =
    if str_eq (outcome_of cell) "ok"
    then is_true (get cell "attested")
    else not (is_absent (non_empty_str cell "reason"))

abbrev pub IsAdmissible : Value → Type 0
IsAdmissible cell = admissible cell ≡ true

abbrev pub stamped : List Value → Bool
stamped [] = true
stamped (cell ∷ rest) = is_true (get cell "dirty") && stamped rest

-- A dirty tree was allowed, and is stamped on every cell.
abbrev pub dirt_declared : Value → Bool
dirt_declared doc =
    if is_true (at doc "provenance.dirty") || is_true (at doc "provenance.library.dirty")
    then is_true (at doc "provenance.allowDirty") && stamped (cells doc)
    else true

abbrev pub is_tmpfs : Option String → Bool
is_tmpfs none = false
is_tmpfs (some s) = str_eq s "tmpfs"

-- A tmpfs was declared.
abbrev pub tmpfs_declared : Value → Option String → Bool
tmpfs_declared doc fs_type =
    if is_tmpfs fs_type then is_true (at doc "provenance.filesystem.declaredTmpfs") else true

-- What a document without refusals says of itself.
pub record Admitted (doc : Value) : Type 0 where
  pub emulated : at doc "provenance.emulated" ≡ some (bool false)
  pub os : is_absent (non_empty_str doc "provenance.os") ≡ false
  pub arch : is_absent (non_empty_str doc "provenance.arch") ≡ false
  pub cpu_model : is_absent (non_empty_str doc "provenance.cpuModel") ≡ false
  pub commit : is_absent (non_empty_str doc "provenance.commit") ≡ false
  pub library_commit : is_absent (non_empty_str doc "provenance.library.commit") ≡ false
  pub dirt : dirt_declared doc ≡ true
  pub assertions : at doc "provenance.node.debugAssertions" ≡ some (bool false)
  pub build_profile : non_empty_str doc "provenance.node.buildProfile" ≡ some "release"
  pub fs_type : is_absent (non_empty_str doc "provenance.filesystem.fsType") ≡ false
  pub scratch_dir : is_absent (non_empty_str doc "provenance.filesystem.scratchDir") ≡ false
  pub tmpfs : tmpfs_declared doc (non_empty_str doc "provenance.filesystem.fsType") ≡ true
  pub has_cells : is_empty (cells doc) ≡ false
  pub cells_admissible : All IsAdmissible (cells doc)

All-stamped :
    (vs : List Value) → All (λ cell. is_true (get cell "dirty") ≡ true) vs → stamped vs ≡ true
All-stamped [] h = refl
All-stamped (v ∷ vs) (first, rest) = rw first (All-stamped vs rest)

module _ (crates : Crates) where
  refuse_emulated-none :
      (doc : Value) (o : Option Value)
      → (refuse_emulated crates doc o ≡ []) ↔ (o ≡ some (bool false))
  unfolding refuse_emulated
  refuse_emulated-none doc none = (λ h. cc, λ h. cc)
  refuse_emulated-none doc (some (bool true)) = (λ h. cc, λ h. cc)
  refuse_emulated-none doc (some (bool false)) = (λ h. refl, λ h. refl)
  refuse_emulated-none doc (some v) = (λ h. ground arith, λ h. ground arith)

  -- `check_emulation` has no refusal exactly if the document says that nothing was emulated.
  pub check_emulation-none :
      (doc : Value)
      → (check_emulation crates doc ≡ []) ↔ (at doc "provenance.emulated" ≡ some (bool false))
  unfolding check_emulation
  check_emulation-none doc = refuse_emulated-none doc (at doc "provenance.emulated")

  check_host-none :
      (doc : Value)
      → check_host_and_arch crates doc ≡ []
      → (is_absent (non_empty_str doc "provenance.os") ≡ false)
        × (is_absent (non_empty_str doc "provenance.arch") ≡ false)
        × (is_absent (non_empty_str doc "provenance.cpuModel") ≡ false)
  unfolding check_host_and_arch check_host_field
  check_host-none doc h = ground arith

  refuse_dirty-none :
      (label path : String) (o : Option Value)
      → refuse_dirty crates label path o ≡ []
      → (b : Bool) × (o ≡ some (bool b))
  unfolding refuse_dirty
  refuse_dirty-none label path none h = cc
  refuse_dirty-none label path (some (bool b)) h = (b, refl)
  refuse_dirty-none label path (some v) h = ground arith

  refuse_scratch-none :
      (doc : Value) (fs_type : String)
      → refuse_scratch crates doc fs_type ≡ []
      → (is_absent (non_empty_str doc "provenance.filesystem.scratchDir") ≡ false)
        × (tmpfs_declared doc (some fs_type) ≡ true)
  unfolding refuse_scratch
  refuse_scratch-none doc fs_type h = ground arith

  refuse_profile-none : (o : Option String) → refuse_profile crates o ≡ [] → o ≡ some "release"
  unfolding refuse_profile
  refuse_profile-none none h = cc
  refuse_profile-none (some s) h = ground (arith, str_eq_iff s "release")

  refuse_cell-none : (i : ℕ) (cell : Value) → (refuse_cell crates i cell ≡ []) ↔ IsAdmissible cell
  unfolding refuse_cell
  refuse_cell-none i cell = (
    λ h. ground (arith, str_eq_iff (outcome_of cell) "ok"),
    λ h. ground (arith, str_eq_iff (outcome_of cell) "ok"),
  )

  enumerate-none :
      {B : Type 0} (f : ℕ → Value → List B) (P : Value → Type 0)
      → ((i : ℕ) (v : Value) → (f i v ≡ []) ↔ P v)
      → (i : ℕ) (vs : List Value) → (enumerate f i vs ≡ []) ↔ All P vs
  unfolding enumerate
  enumerate-none f P iff i [] = (λ h. tt, λ h. refl)
  enumerate-none f P iff i (v ∷ vs) =
      let rest = enumerate-none f P iff (i + 1) vs in
      (
        λ h. let (first, others) = append-empty (f i v) _ h in ((iff i v).0 first, rest.0 others),
        λ (p, ps). rw ((iff i v).1 p) (rest.1 ps),
      )

  -- `check_cells` has no refusal exactly if there is a cell, every cell whose outcome is ok was
  -- attested, and every other one has a reason.
  pub check_cells-none :
      (doc : Value)
      → (check_cells crates doc ≡ [])
        ↔ ((is_empty (cells doc) ≡ false) × All IsAdmissible (cells doc))
  unfolding check_cells
  check_cells-none doc =
      let iff = enumerate-none (refuse_cell crates) IsAdmissible refuse_cell-none 0 (cells doc) in
      (λ h. ground (arith, iff), λ h. ground (arith, iff))

  unstamped_cell-none :
      (i : ℕ) (cell : Value)
      → (unstamped_cell crates i cell ≡ []) ↔ (is_true (get cell "dirty") ≡ true)
  unfolding unstamped_cell
  unstamped_cell-none i cell = (λ h. ground arith, λ h. ground arith)

  check_stamps-none : (doc : Value) → check_stamps crates doc ≡ [] → stamped (cells doc) ≡ true
  unfolding check_stamps
  check_stamps-none doc h =
      let iff = enumerate-none (unstamped_cell crates) _ unstamped_cell-none 0 (cells doc) in
      ground (arith, iff, All-stamped (cells doc))

  check_source_trees-none :
      (doc : Value)
      → check_source_trees crates doc ≡ []
      → (is_absent (non_empty_str doc "provenance.commit") ≡ false)
        × (is_absent (non_empty_str doc "provenance.library.commit") ≡ false)
        × (dirt_declared doc ≡ true)
  unfolding check_source_trees check_tree check_dirt
  check_source_trees-none doc h = ground (arith, check_stamps-none doc)

  refuse_filesystem-none :
      (doc : Value) (o : Option String)
      → refuse_filesystem crates doc o ≡ []
      → (is_absent o ≡ false)
        × (is_absent (non_empty_str doc "provenance.filesystem.scratchDir") ≡ false)
        × (tmpfs_declared doc o ≡ true)
  unfolding refuse_filesystem
  refuse_filesystem-none doc none h = cc
  refuse_filesystem-none doc (some s) h =
      let (scratch, tmpfs) = refuse_scratch-none doc s h in (refl, scratch, tmpfs)

  check_filesystem-none :
      (doc : Value)
      → check_filesystem crates doc ≡ []
      → (is_absent (non_empty_str doc "provenance.filesystem.fsType") ≡ false)
        × (is_absent (non_empty_str doc "provenance.filesystem.scratchDir") ≡ false)
        × (tmpfs_declared doc (non_empty_str doc "provenance.filesystem.fsType") ≡ true)
  unfolding check_filesystem
  check_filesystem-none doc h =
      refuse_filesystem-none doc (non_empty_str doc "provenance.filesystem.fsType") h

  refuse_assertions-none :
      (o : Option Value) → refuse_assertions crates o ≡ [] → o ≡ some (bool false)
  unfolding refuse_assertions
  refuse_assertions-none none h = cc
  refuse_assertions-none (some (bool true)) h = cc
  refuse_assertions-none (some (bool false)) h = refl
  refuse_assertions-none (some v) h = ground arith

  check_build-none :
      (doc : Value)
      → check_build crates doc ≡ []
      → (at doc "provenance.node.debugAssertions" ≡ some (bool false))
        × (non_empty_str doc "provenance.node.buildProfile" ≡ some "release")
  unfolding check_build
  check_build-none doc h =
      let (h1, flags) =
        append-empty _ (refuse_flags crates (at doc "provenance.node.rustflags" >>? as_str)) h in
      let (a, p) =
        append-empty (refuse_assertions crates _)
          (refuse_profile crates (non_empty_str doc "provenance.node.buildProfile")) h1 in
      (refuse_assertions-none _ a, refuse_profile-none _ p)

module _ (crates : Crates) (planner : Planner) where
  -- A document that `admit` does not refuse says that it was not emulated, names its host and
  -- both commits, has allowed and stamped what was dirty, is a release build without assertions,
  -- names a file system and scratch directory, with tmpfs only where declared, and has cells,
  -- each attested if its outcome is ok and with a reason if not.
  pub admit-none : (doc : Value) → admit crates planner doc ≡ [] → Admitted doc
  unfolding admit
  admit-none doc h =
      let (h7, walk) = append-empty _ (check_profile_walk crates planner doc) h in
      let (h6, cells_none) = append-empty _ (check_cells crates doc) h7 in
      let (h5, invocation) = append-empty _ (check_invocation_and_reps crates doc) h6 in
      let (h4, filesystem) = append-empty _ (check_filesystem crates doc) h5 in
      let (h3, build) = append-empty _ (check_build crates doc) h4 in
      let (h2, trees) = append-empty _ (check_source_trees crates doc) h3 in
      let (emulation, host) = append-empty _ (check_host_and_arch crates doc) h2 in
      let (os, arch, cpu) = check_host-none crates doc host in
      let (commit, library, dirt) = check_source_trees-none crates doc trees in
      let (assertions, profile) = check_build-none crates doc build in
      let (fs_type, scratch, tmpfs) = check_filesystem-none crates doc filesystem in
      let (some_cell, every_cell) = (check_cells-none crates doc).0 cells_none in
      record {
        emulated = (check_emulation-none crates doc).0 emulation;
        os = os;
        arch = arch;
        cpu_model = cpu;
        commit = commit;
        library_commit = library;
        dirt = dirt;
        assertions = assertions;
        build_profile = profile;
        fs_type = fs_type;
        scratch_dir = scratch;
        tmpfs = tmpfs;
        has_cells = some_cell;
        cells_admissible = every_cell;
      }
