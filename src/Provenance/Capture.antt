-- ===== src/Provenance/Capture.antt =====
-- src/provenance.rs: a provenance as it is captured, its fingerprint, and the conditions that it warns
-- of.
use libviprs_bench.Base.{
  ℕ, ◌%◌, ◌^◌, String, Bool, false, not, ◌&&◌, List, [], ◌∷◌, ◌++◌, Option, none, some, ◌&◌, show,
  if◌then◌else◌, ltb,
}
use libviprs_bench.Statistics.{float_leb, is_nan}
use libviprs_bench.Provenance.{
  Provenance, pinned_libvips_version, LoadAverage, ToolchainInfo, TreeStamps, stamped_tree,
  SourceTrees, EmulationRecord, record_from, FilesystemInfo, LockedDependency, verdict_text, filled,
  or_text, OracleMatch, mismatch, libvips_oracle_match,
}
use libviprs_bench.Provenance.Host.{
  Machine, libvips_version, cpu_model, load_average, thermal_throttle_count, detect_container,
  filesystem_of, cgroup_cpu_quota, cgroup_memory_limit,
}

-- What the build left in the environment of the compiler, and of the lock file.
pub record BuildStamps : Type 0 where
  pub rustc_version : Option String
  pub build_flags : Option String
  pub cargo_version : Option String
  pub rustflags : Option String
  pub debug_assertions : Bool
  pub harness : TreeStamps
  pub library : TreeStamps
  pub lockfile_hash : Option String
  pub core_version : Option String
  pub dependencies : List (String × LockedDependency)

unfoldable pub stamped_toolchain : BuildStamps → ToolchainInfo
stamped_toolchain stamps = record {
  cargo_version = or_text "unknown" stamps.cargo_version;
  rustflags = or_text "" stamps.rustflags;
  debug_assertions = stamps.debug_assertions;
}

unfoldable pub stamped_trees : BuildStamps → SourceTrees
unfolding stamped_tree
stamped_trees stamps = record {
  harness = stamped_tree stamps.harness;
  library = stamped_tree stamps.library;
}

abbrev or_zero : Option ℕ → ℕ
or_zero none = 0
or_zero (some n) = n % 2 ^ 32

module _ (machine : Machine) (stamps : BuildStamps) where
  unfoldable pub capture : Provenance
  unfolding libvips_version cpu_model load_average thermal_throttle_count detect_container
      record_from cgroup_cpu_quota cgroup_memory_limit stamped_toolchain stamped_trees
  capture = record {
    libvips_version = libvips_version machine machine.vips;
    pinned_libvips_version = pinned_libvips_version;
    rustc_version = or_text "unknown" stamps.rustc_version;
    build_profile = if stamps.debug_assertions then "debug" else "release";
    build_flags = or_text "" stamps.build_flags;
    host = record {
      cpu_model = cpu_model machine (machine.read "/proc/cpuinfo");
      ncpu = or_zero machine.parallelism;
      arch = machine.arch;
      os = machine.os;
      in_container = detect_container machine;
    };
    load_average = load_average machine;
    thermal_throttle_count = thermal_throttle_count machine;
    emulation = some (record_from machine.emulation);
    filesystem = none;
    cgroup = record {
      cpu_quota = cgroup_cpu_quota machine;
      memory_limit_bytes = cgroup_memory_limit machine;
    };
    toolchain = stamped_toolchain stamps;
    trees = stamped_trees stamps;
    lockfile_hash = filled stamps.lockfile_hash;
    dependencies = [];
  }

  unfoldable pub capture_for_document : String → Provenance
  unfolding capture filesystem_of
  capture_for_document scratch_dir = record capture {
    filesystem = some (filesystem_of machine scratch_dir);
    dependencies = stamps.dependencies;
  }

emulation_text : Option EmulationRecord → String
unfolding verdict_text
emulation_text none = "unrecorded"
emulation_text (some e) = verdict_text e.emulated

fs_text : Option FilesystemInfo → String
fs_text none = "unrecorded"
fs_text (some fs) = fs.fs_type

unfoldable pub fingerprint : Provenance → String
unfolding emulation_text fs_text
fingerprint p =
    "vips"
    & p.libvips_version
    & "/rustc"
    & p.rustc_version
    & "/"
    & p.build_profile
    & "/"
    & p.host.os
    & "-"
    & p.host.arch
    & "x"
    & show p.host.ncpu
    & "cpu/"
    & (if p.host.in_container then "container" else "host")
    & "/emul:"
    & emulation_text p.emulation
    & "/fs:"
    & fs_text p.filesystem

-- `as_f64` is `n as f64`.
contended : (ℕ → ℕ) → ℕ → Option LoadAverage → Bool
unfolding is_nan float_leb
contended as_f64 ncpu none = false
contended as_f64 ncpu (some la) =
    ltb 0 ncpu && (not (is_nan la.one_min) && float_leb (as_f64 ncpu) la.one_min)

unfoldable pub host_looked_contended : (ℕ → ℕ) → Provenance → Bool
unfolding contended
host_looked_contended as_f64 p = contended as_f64 p.host.ncpu p.load_average

unfoldable pub thermally_throttled : Provenance → Bool
thermally_throttled p = elim (p.thermal_throttle_count) [ none ↦ false | some n ↦ ltb 0 n ]

-- `fixed` is `{:.2}` of a float.
unfoldable pub load_average_line : (ℕ → String) → Option LoadAverage → String
load_average_line fixed none = "unavailable"
load_average_line fixed (some la) =
    fixed la.one_min & " / " & fixed la.five_min & " / " & fixed la.fifteen_min

oracle_warning : OracleMatch → List String
oracle_warning (mismatch (a, b) (c, d)) =
    ("WARNING: measured libvips "
      & show a
      & "."
      & show b
      & " != pinned oracle "
      & show c
      & "."
      & show d
      & " — this run measured a different libvips than the environment was pinned to build (issue #33); its numbers are NOT comparable to a pinned-oracle run.")
    ∷ []
oracle_warning _ = []

unfoldable pub measurement_condition_warnings : (ℕ → ℕ) → (ℕ → String) → Provenance → List String
unfolding host_looked_contended thermally_throttled load_average_line oracle_warning
    libvips_oracle_match
measurement_condition_warnings as_f64 fixed p =
    (if host_looked_contended as_f64 p
      then ("WARNING: 1-minute host load "
          & load_average_line fixed p.load_average
          & " >= "
          & show p.host.ncpu
          & " CPUs when sampled at the start of the run — the host was already under load, so these wall-time numbers are inflated by scheduling pressure, not the code under test.")
        ∷ []
      else [])
    ++ ((if thermally_throttled p
          then "WARNING: CPU thermal-throttle counter is non-zero — this host has thermally throttled at some point since boot (the counter is cumulative, so this is not proof it throttled during this run); if it did, timing numbers may understate true throughput."
            ∷ []
          else [])
        ++ oracle_warning (libvips_oracle_match p))
