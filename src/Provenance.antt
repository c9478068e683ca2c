-- ===== src/Provenance.antt =====
-- src/provenance.rs: what a run records of its surroundings, and the warnings that it prints. The
-- code is that of a Linux host without the `libvips` feature.
pub mod Host
pub mod Capture
pub mod Block
pub mod Warned
use mathlib.Core.Option
use libviprs_bench.Base.{
  ℕ, ◌+◌, String, Bool, true, false, not, ◌&&◌, ◌||◌, List, [], ◌∷◌, ◌++◌, map, Option, none, some,
  ◌≡◌, refl, ◌&◌, show, str_eq, if◌then◌else◌, ltb, ◌==◌, parse_uint, Result, ok, err,
}
use libviprs_bench.Json.{Value, bool, string, ◌>>?◌}
use libviprs_bench.Emulation
use libviprs_bench.Emulation.{Emulated, yes, no, unknown, Evidence, EmulationReport}
use libviprs_bench.Statistics.{float_ltb}
use libviprs_bench.Pin.{parse_libvips_major_minor, max_u32}

abbrev pub pinned_libvips_version : String
pinned_libvips_version = "8.18.4"

abbrev pub pinned_libvips_sha256 : String
pinned_libvips_sha256 = "2677bad6c422617fd1172d359c16af34e736965d042c214203a87187d26ff037"

pub record LoadAverage : Type 0 where
  pub one_min : ℕ
  pub five_min : ℕ
  pub fifteen_min : ℕ

pub record HostInfo : Type 0 where
  pub cpu_model : String
  pub ncpu : ℕ
  pub arch : String
  pub os : String
  pub in_container : Bool

pub data EmulationVerdict : Type 0 where
  emulated : EmulationVerdict
  native : EmulationVerdict
  unobserved : EmulationVerdict

unfoldable pub verdict_text : EmulationVerdict → String
verdict_text emulated = "true"
verdict_text native = "false"
verdict_text unobserved = "unknown"

unfoldable pub verdict_from : Emulated → EmulationVerdict
verdict_from yes = emulated
verdict_from no = native
verdict_from unknown = unobserved

unfoldable pub serialize_verdict : EmulationVerdict → Value
serialize_verdict emulated = bool true
serialize_verdict native = bool false
serialize_verdict unobserved = string "unknown"

-- `shown` prints a value.
unfoldable pub deserialize_verdict : (Value → String) → Value → Result String EmulationVerdict
deserialize_verdict shown (bool true) = ok emulated
deserialize_verdict shown (bool false) = ok native
deserialize_verdict shown (string s) =
    if str_eq s "unknown"
    then ok unobserved
    else err ("emulated must be true, false or \"unknown\", not " & shown (string s))
deserialize_verdict shown other =
    err ("emulated must be true, false or \"unknown\", not " & shown other)

pub record EmulationEvidence : Type 0 where
  pub source : String
  pub verdict : String
  pub detail : String

pub record EmulationRecord : Type 0 where
  pub emulated : EmulationVerdict
  pub evidence : List EmulationEvidence
  pub binary_arch : String
  pub uname_arch : Option String
  pub daemon_arch : Option String

evidence_record : Evidence → EmulationEvidence
unfolding Emulation.as_str
evidence_record e = record {
  source = e.source;
  verdict = Emulation.as_str e.verdict;
  detail = e.detail;
}

unfoldable pub record_from : EmulationReport → EmulationRecord
unfolding verdict_from evidence_record
record_from report = record {
  emulated = verdict_from report.emulated;
  evidence = map evidence_record report.evidence;
  binary_arch = report.binary_arch;
  uname_arch = report.uname_arch;
  daemon_arch = report.daemon_arch;
}

pub record FilesystemInfo : Type 0 where
  pub scratch_dir : String
  pub fs_type : String
  pub mount_source : Option String
  pub bind_mount : Option Bool
  pub declared_tmpfs : Bool

pub record CgroupLimits : Type 0 where
  pub cpu_quota : Option ℕ
  pub memory_limit_bytes : Option ℕ

pub record ToolchainInfo : Type 0 where
  pub cargo_version : String
  pub rustflags : String
  pub debug_assertions : Bool

pub data MainRelation : Type 0 where
  at_main behind diverged unrelated : MainRelation

unfoldable pub relation_text : MainRelation → String
relation_text at_main = "at-main"
relation_text behind = "behind"
relation_text diverged = "diverged"
relation_text unrelated = "unknown"

unfoldable pub parse_relation : Option String → MainRelation
parse_relation none = unrelated
parse_relation (some s) =
    if str_eq s "at-main"
    then at_main
    else if str_eq s "behind"
    then behind
    else if str_eq s "diverged"
    then diverged
    else unrelated

pub record TreeState : Type 0 where
  pub commit : Option String
  pub dirty : Option Bool
  pub note : String
  pub main_commit : Option String
  pub main_relation : MainRelation
  pub commits_behind_main : Option ℕ

pub record SourceTrees : Type 0 where
  pub harness : TreeState
  pub library : TreeState

pub record LockedDependency : Type 0 where
  pub version : String
  pub source : Option String
  pub checksum : Option String

pub record Provenance : Type 0 where
  pub libvips_version : String
  pub pinned_libvips_version : String
  pub rustc_version : String
  pub build_profile : String
  pub build_flags : String
  pub host : HostInfo
  pub load_average : Option LoadAverage
  pub thermal_throttle_count : Option ℕ
  pub emulation : Option EmulationRecord
  pub filesystem : Option FilesystemInfo
  pub cgroup : CgroupLimits
  pub toolchain : ToolchainInfo
  pub trees : SourceTrees
  pub lockfile_hash : Option String
  pub dependencies : List (String × LockedDependency)

-- What the build left in the environment of the compiler for one tree.
pub record TreeStamps : Type 0 where
  pub commit : Option String
  pub dirty : Option String
  pub note : Option String
  pub main_commit : Option String
  pub main_relation : Option String
  pub behind : Option String

-- `filter(|s| !s.is_empty())`
abbrev pub filled : Option String → Option String
filled none = none
filled (some s) = if str_eq s "" then none else some s

abbrev pub or_text : String → Option String → String
or_text d none = d
or_text d (some s) = s

dirty_flag : Option String → Option Bool
dirty_flag none = none
dirty_flag (some s) =
    if str_eq s "true" then some true else if str_eq s "false" then some false else none

unfoldable pub stamped_tree : TreeStamps → TreeState
unfolding dirty_flag parse_relation parse_uint
stamped_tree s = record {
  commit = filled s.commit;
  dirty = dirty_flag s.dirty;
  note = or_text "this binary was built before the provenance stamps existed" (filled s.note);
  main_commit = filled s.main_commit;
  main_relation = parse_relation (filled s.main_relation);
  commits_behind_main = filled s.behind >>? parse_uint max_u32;
}

pub data OracleMatch : Type 0 where
  matches : OracleMatch
  mismatch : ℕ × ℕ → ℕ × ℕ → OracleMatch
  indeterminate : OracleMatch

oracle_match : Option (ℕ × ℕ) → Option (ℕ × ℕ) → OracleMatch
oracle_match (some (a, b)) (some (c, d)) =
    if a == c && b == d then matches else mismatch (a, b) (c, d)
oracle_match _ _ = indeterminate

unfoldable pub libvips_oracle_match : Provenance → OracleMatch
unfolding oracle_match parse_libvips_major_minor
libvips_oracle_match p =
    oracle_match (parse_libvips_major_minor p.libvips_version)
      (parse_libvips_major_minor p.pinned_libvips_version)

abbrev is_match : OracleMatch → Bool
is_match matches = true
is_match _ = false

unfoldable pub libvips_matches_pinned : Provenance → Bool
unfolding libvips_oracle_match
libvips_matches_pinned p = is_match (libvips_oracle_match p)
