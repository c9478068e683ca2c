-- ===== src/Samples/Origins.antt =====
-- The theorems about the provenance and the pin, at small inputs.
use libviprs_bench.Base.{◌&&◌, ◌||◌, not, true, false, String, List, [], ◌∷◌, none, some, ◌≡◌, refl}
use libviprs_bench.Integrity.{is_empty}
use libviprs_bench.Json.{object, empty, Value}
use libviprs_bench.Archive.Provenance.{check_emulation, check_source_trees}
use libviprs_bench.Cells.Profiles.{ci}
use libviprs_bench.Emulation.{no}
use libviprs_bench.Provenance.{Provenance, TreeStamps}
use libviprs_bench.Provenance.Host.{Machine}
use libviprs_bench.Provenance.Capture.{BuildStamps, capture_for_document}
use libviprs_bench.Provenance.Block.{to_document_block, emulation_warnings}
use libviprs_bench.Provenance.Warned.{is_recorded, is_marked, is_stamped, check_emulation-warned}
use libviprs_bench.StorageDocument.Whole.{Document, new}
use libviprs_bench.StorageDocument.Wire.{to_value}
use libviprs_bench.Pin.{GhRelease}
use libviprs_bench.Samples.Serde.{crates}

abbrev machine : Machine
machine = record {
  read = λ path. none;
  exists = λ path. false;
  read_dir = λ path. none;
  vips = some (true, "vips-8.18.4\n");
  canonical = λ path. none;
  statfs_type = λ path. some 0xef53;
  parallelism = some 6;
  arch = "x86_64";
  os = "linux";
  emulation = record {
    emulated = no;
    evidence = [];
    binary_arch = "x86_64";
    uname_arch = none;
    daemon_arch = none;
  };
  parse_f64 = λ s. none;
  divide = λ a b. a;
  is_positive = λ a. true;
}

abbrev clean_tree : TreeStamps
clean_tree = record {
  commit = some "0123abcd";
  dirty = some "false";
  note = none;
  main_commit = none;
  main_relation = some "at-main";
  behind = none;
}

abbrev stamps : BuildStamps
stamps = record {
  rustc_version = some "1.90.0";
  build_flags = none;
  cargo_version = none;
  rustflags = none;
  debug_assertions = false;
  harness = clean_tree;
  library = record clean_tree { commit = none };
  lockfile_hash = none;
  core_version = some "0.3.0";
  dependencies = [];
}

abbrev captured : Provenance
captured = capture_for_document machine stamps "/scratch"

abbrev block : Value
block = to_document_block (some "0.3.0") captured (object empty) false

abbrev carrying : Document
carrying =
    let d = new (record { tick_ns = 0; call_ns = 0 }) ci "2025-01-02T03:04:05Z" in
    record d { provenance = some block }

check_emulation-warned_example :
    (is_empty (check_emulation crates (to_value carrying))
      ≡ is_empty (emulation_warnings captured.emulation))
    × (is_empty (check_source_trees crates (to_value carrying)) ≡ (
        is_recorded captured.trees.harness
        && is_recorded captured.trees.library
        && (not (is_marked captured.trees.harness.dirty || is_marked captured.trees.library.dirty)
            || (false && is_stamped carrying.cells))))
check_emulation-warned_example =
    check_emulation-warned crates (some "0.3.0") (object empty) false captured carrying refl

abbrev release : String → List GhRelease → List GhRelease
release tag rest =
    record {
      tag_name = tag;
      draft = false;
      prerelease = false;
      assets = record { name = "vips-8.18.4.tar.xz"; digest = some "sha256:2677BAD6" } ∷ [];
    }
    ∷ rest

abbrev releases : List GhRelease
releases = release "v8.18.4" (release "v8.17.0" [])
