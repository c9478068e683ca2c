-- ===== src/Provenance/Block.antt =====
-- src/provenance.rs: the provenance block of a document, and the warnings of what will not archive.
use libviprs_bench.Base.{
  ℕ, String, Bool, true, false, not, ◌&&◌, List, [], ◌∷◌, ◌++◌, map, Option, none, some, ◌&◌, show,
  str_eq, if◌then◌else◌, ltb,
}
use libviprs_bench.Json.{Value, bool, string, array, object, Map, empty, entry, items}
use libviprs_bench.StorageDocument.Wire.{entries, or_null, natural, float_value}
use libviprs_bench.Provenance.{
  Provenance, LoadAverage, EmulationVerdict, native, emulated, unobserved, serialize_verdict,
  EmulationEvidence, EmulationRecord, FilesystemInfo, at_main, behind, diverged, unrelated,
  relation_text, TreeState, LockedDependency, or_text,
}

evidence_value : EmulationEvidence → Value
unfolding entries
evidence_value e = object (
    entries (
      ("source", string e.source)
      ∷ ("verdict", string e.verdict)
      ∷ ("detail", string e.detail)
      ∷ []))

filesystem_value : FilesystemInfo → Value
unfolding entries
filesystem_value fs = object (
    entries (
      ("scratchDir", string fs.scratch_dir)
      ∷ ("fsType", string fs.fs_type)
      ∷ ("mountSource", or_null string fs.mount_source)
      ∷ ("bindMount", or_null bool fs.bind_mount)
      ∷ ("declaredTmpfs", bool fs.declared_tmpfs)
      ∷ []))

loads_value : LoadAverage → Value
unfolding entries float_value
loads_value la = object (
    entries (
      ("oneMin", float_value la.one_min)
      ∷ ("fiveMin", float_value la.five_min)
      ∷ ("fifteenMin", float_value la.fifteen_min)
      ∷ []))

dependency_value : LockedDependency → Value
unfolding entries
dependency_value d = object (
    entries (
      ("version", string d.version)
      ∷ ("source", or_null string d.source)
      ∷ ("checksum", or_null string d.checksum)
      ∷ []))

dependency_entries : List (String × LockedDependency) → Map
unfolding dependency_value
dependency_entries [] = empty
dependency_entries ((name, d) ∷ rest) = entry name (dependency_value d) (dependency_entries rest)

library_value : Option String → TreeState → Value
unfolding entries relation_text
library_value core_version tree = object (
    entries (
      ("name", string "libviprs")
      ∷ ("version", string (or_text "unknown" core_version))
      ∷ ("commit", or_null string tree.commit)
      ∷ ("dirty", or_null bool tree.dirty)
      ∷ ("gitNote", string tree.note)
      ∷ ("mainCommit", or_null string tree.main_commit)
      ∷ ("mainRelation", string (relation_text tree.main_relation))
      ∷ ("commitsBehindMain", or_null natural tree.commits_behind_main)
      ∷ []))

node_value : Provenance → Value
unfolding entries
node_value p = object (
    entries (
      ("rustc", string p.rustc_version)
      ∷ ("cargo", string p.toolchain.cargo_version)
      ∷ ("buildProfile", string p.build_profile)
      ∷ ("buildFlags", string p.build_flags)
      ∷ ("rustflags", string p.toolchain.rustflags)
      ∷ ("debugAssertions", bool p.toolchain.debug_assertions)
      ∷ []))

-- `core_version` is the version of the library that the build stamped.
unfoldable pub to_document_block : Option String → Provenance → Value → Bool → Value
unfolding entries library_value node_value serialize_verdict evidence_value filesystem_value
    float_value loads_value dependency_entries
to_document_block core_version p invocation allow_dirty = object (
    entries (
      ("library", library_value core_version p.trees.library)
      ∷ ("commit", or_null string p.trees.harness.commit)
      ∷ ("dirty", or_null bool p.trees.harness.dirty)
      ∷ ("gitNote", string p.trees.harness.note)
      ∷ ("allowDirty", bool allow_dirty)
      ∷ ("emulated", or_null (λ e. serialize_verdict e.emulated) p.emulation)
      ∷ (
        "emulationEvidence",
        or_null (λ e. array (items (map evidence_value e.evidence))) p.emulation,
      )
      ∷ ("filesystem", or_null filesystem_value p.filesystem)
      ∷ ("node", node_value p)
      ∷ ("os", string p.host.os)
      ∷ ("arch", string p.host.arch)
      ∷ ("cpuModel", string p.host.cpu_model)
      ∷ ("ncpu", natural p.host.ncpu)
      ∷ ("inContainer", bool p.host.in_container)
      ∷ ("cgroupCpuQuota", or_null float_value p.cgroup.cpu_quota)
      ∷ ("cgroupMemoryLimit", or_null natural p.cgroup.memory_limit_bytes)
      ∷ ("loadAverage", or_null loads_value p.load_average)
      ∷ ("thermalThrottleCount", or_null natural p.thermal_throttle_count)
      ∷ ("lockfileHash", or_null string p.lockfile_hash)
      ∷ ("dependencies", object (dependency_entries p.dependencies))
      ∷ ("invocation", invocation)
      ∷ []))

abbrev not_observed : String
not_observed =
    "WARNING: the emulation probe could not observe either way, and an unobserved run is refused the same as a translated one. Nothing will archive."

unfoldable pub verdict_warnings : EmulationVerdict → List String
verdict_warnings native = []
verdict_warnings emulated =
    "WARNING: this process is being instruction-translated, so its timings describe the translator as much as the code. Nothing will archive."
    ∷ []
verdict_warnings unobserved = not_observed ∷ []

unfoldable pub emulation_warnings : Option EmulationRecord → List String
unfolding verdict_warnings
emulation_warnings none = not_observed ∷ []
emulation_warnings (some e) = verdict_warnings e.emulated

abbrev is_known : Option String → Option Bool → Bool
is_known (some commit) (some dirty) = true
is_known _ _ = false

abbrev is_set : Option Bool → Bool
is_set none = false
is_set (some b) = b

unfoldable pub tree_warnings : String → TreeState → List String
tree_warnings label tree =
    if not (is_known tree.commit tree.dirty)
    then ("WARNING: the " & label
        & " tree has no commit or no dirty flag, so nothing will archive. The reason recorded at build time was: "
        & tree.note)
      ∷ []
    else if is_set tree.dirty
    then ("WARNING: the " & label
        & " tree is dirty, so these numbers describe a source state that exists on one machine. Archiving needs --allow-dirty, which stamps every cell.")
      ∷ []
    else []

ahead : Option ℕ → String
ahead none = ""
ahead (some n) = if ltb 0 n then ", which is " & show n & " commits ahead of it" else ""

off_main : TreeState → String
unfolding relation_text ahead
off_main tree =
    "WARNING: the measured libviprs is "
    & relation_text tree.main_relation
    & " its own origin/main. HEAD is "
    & or_text "unknown" tree.commit
    & ", origin/main is "
    & or_text "unknown" tree.main_commit
    & ahead tree.commits_behind_main
    & ". This is not refused and the run will archive, but the numbers describe a core that is not the mainline one and nothing downstream notices on its own."

relation_warnings : TreeState → List String
unfolding off_main
relation_warnings tree = elim (tree.main_relation) [
  | at_main ↦ []
  | unrelated ↦
      "NOTE: the measured libviprs has no local origin/main to compare against, so this run does not record whether the core it measured is on the mainline. The commit itself is recorded either way."
      ∷ []
  | behind ↦ off_main tree ∷ []
  | diverged ↦ off_main tree ∷ []
]

unfoldable pub build_warnings : Bool → List String
build_warnings debug_assertions =
    if debug_assertions
    then "WARNING: debug assertions are compiled in, so every bounds and overflow check in the engine is inside the measurement."
      ∷ []
    else []

unfoldable pub filesystem_warnings : Option FilesystemInfo → List String
filesystem_warnings none = []
filesystem_warnings (some fs) =
    if str_eq fs.fs_type "tmpfs" && not fs.declared_tmpfs
    then ("WARNING: the scratch directory " & fs.scratch_dir
        & " is on tmpfs, which is RAM with a filesystem interface. Nothing will archive unless the profile declares it.")
      ∷ []
    else []

unfoldable pub document_provenance_warnings : Provenance → List String
unfolding emulation_warnings tree_warnings relation_warnings build_warnings filesystem_warnings
document_provenance_warnings p =
    emulation_warnings p.emulation
    ++ (tree_warnings "harness" p.trees.harness
        ++ (tree_warnings "library" p.trees.library
            ++ (relation_warnings p.trees.library
                ++ (build_warnings p.toolchain.debug_assertions
                    ++ filesystem_warnings p.filesystem))))
