-- ===== src/Samples/Measured.antt =====
-- The theorems about the emulation probe, the scenarios, the statistics and the storage document, at
-- small inputs.
use mathlib.Core.List.{Perm}
use libviprs_bench.Base.{
  ℕ, ◌+◌, ◌*◌, ◌-◌, true, false, List, [], ◌∷◌, Option, none, some, ◌≡◌, refl, ◌⊎◌, All, Related,
  keep, ◌++◌, length, concat, take, if◌then◌else◌, ok, show, arith, split_on,
}
use libviprs_bench.Integrity.{is_empty}
use libviprs_bench.Json.{object, entry, empty, bool, lookup, get, as_str, ◌>>?◌}
use libviprs_bench.Planner.{Plan, Coord}
use libviprs_bench.Emulation.{yes, no, unknown}
use libviprs_bench.Emulation.Probe.{Surroundings, probe}
use libviprs_bench.Emulation.Probe.Verdict.{is_sighted, is_observed, emulated-probe}
use libviprs_bench.Scenarios.{process_per_rep, lower_is_better, milliseconds, succeeded}
use libviprs_bench.Scenarios.Concurrent.{Host, chunks, run_arm}
use libviprs_bench.Scenarios.Concurrent.Chunks.{IsFair, concat-chunks}
use libviprs_bench.Scenarios.Concurrent.Control.{facts, run_arm-control}
use libviprs_bench.Scenarios.TileId
use libviprs_bench.Scenarios.TileId.{Probe, plan_order, coordinates, tile_leb, coord_at, same_coord}
use libviprs_bench.Scenarios.TileId.Order.{is_unaddressable, InOrder, coordinates-perm}
use libviprs_bench.Scenarios.TileId.Moved.{probe_lem}
use libviprs_bench.Scenarios.WriteSplit
use libviprs_bench.Scenarios.WriteSplit.{
  Run, asks, ends, Event, write_tile, finish, Answer, Readings,
}
use libviprs_bench.Scenarios.WriteSplit.Finished.{
  IsWalk, reaches, calls_of, end_of, finishes, walk_lem,
}
use libviprs_bench.Statistics.{Arith, Summary, summarise, is_comparable}
use libviprs_bench.Statistics.Bounds.{Summarises, HasNanMedian, summarise_lem}
use libviprs_bench.StorageDocument.{seed, unknown_load, invariant_block}
use libviprs_bench.StorageDocument.Cell.{CellReport, DocumentCell, from_report}
use libviprs_bench.StorageDocument.Cell.Confidence.{is_trusted, confidence-from_report}
use libviprs_bench.Modelled.{entries_for}
use libviprs_bench.Modelled.Sources.{IsPriced, entries_for-IsPriced}
use libviprs_bench.StorageDocument.Whole.{Document, new, stamp_dirty_from_provenance}
use libviprs_bench.StorageDocument.Wire.{to_value, stamp_run_id, ok_or_none}
use libviprs_bench.StorageDocument.Stamps.{check_stamps-stamped, run_id-stamp_run_id}
use libviprs_bench.Archive.Document.{at}
use libviprs_bench.Archive.Provenance.{check_stamps}
use libviprs_bench.Archive.RunId.{run_id}
use libviprs_bench.Cells.Profiles.{ci}
use libviprs_bench.Samples.Serde.{crates}

-- A container whose process has Rosetta mapped, under a path with a space.
abbrev translated : Surroundings
translated = record {
  binary_arch = "x86_64";
  maps = ok "7f0-7f1 r-xp 0 00:2b 12  /run/my tools/rosetta\n7f2-7f3 rw-p 0 00:00 0\n";
  handlers = ok ("status" ∷ "register" ∷ []);
  handler_text = λ name. none;
  daemon_env = none;
  uname_output = some (true, "x86_64\n");
}

emulated-probe_example :
    (probe translated).emulated
    ≡ (if is_sighted translated then yes else if is_observed translated then no else unknown)
emulated-probe_example = emulated-probe translated

abbrev five : List ℕ
five = 7 ∷ 8 ∷ 9 ∷ 7 ∷ 8 ∷ []

concat-chunks_example :
    (length (chunks five 3) ≡ 3)
    × (concat (chunks five 3) ≡ five)
    × All (IsFair five 3) (chunks five 3)
concat-chunks_example = concat-chunks five 3 (omega arith)

abbrev tile_at : ℕ → ℕ → Coord
tile_at col row = record { level = 0; col = col; row = row }

abbrev walked_tiles : List Coord
walked_tiles = tile_at 0 0 ∷ tile_at 1 0 ∷ tile_at 0 1 ∷ []

-- The tiles of the first column are there, and a lookup takes as long as its thread's number.
abbrev host : Host
host = record {
  tile = λ c.
      ok (elim (c.col) [ Prim.Native.Nat.zero ↦ some (1 ∷ []) | Prim.Native.Nat.suc n ↦ none ]);
  took = λ thread c. thread;
  elapsed = λ threads. 5;
  current = 1;
  spawned = λ index. index + 2;
  panics = λ index. false;
}

run_arm-control_example : facts (run_arm host walked_tiles 2) ≡ facts (run_arm host walked_tiles 1)
run_arm-control_example = run_arm-control host walked_tiles 2 (omega arith) (λ i. refl)

-- The ids of one level run against its rows.
abbrev zxy : ℕ → ℕ → ℕ → Option ℕ
zxy z col row = some (10 - row)

abbrev square : Plan
square = record { level = 0; cols = 2; rows = 2 } ∷ []

coordinates-perm_example :
    Perm (coordinates zxy square 3) (plan_order square 3)
    × Related (InOrder zxy) (coordinates zxy square 3)
    × (keep (is_unaddressable zxy) (coordinates zxy square 3)
        ≡ keep (is_unaddressable zxy) (plan_order square 3))
coordinates-perm_example = coordinates-perm zxy square 3

abbrev sorted_tiles : List Coord
sorted_tiles = tile_at 0 1 ∷ tile_at 0 0 ∷ tile_at 1 0 ∷ []

probe_lem_example :
    ((TileId.probe zxy walked_tiles sorted_tiles ≡ none) × (walked_tiles ≡ sorted_tiles))
    ⊎ ((p : Probe) × (TileId.probe zxy walked_tiles sorted_tiles ≡ some p)
        × (take p.index walked_tiles ≡ take p.index sorted_tiles)
        × (coord_at walked_tiles p.index ≡ some p.in_plan_order)
        × (coord_at sorted_tiles p.index ≡ some p.in_tileid_order)
        × (same_coord p.in_plan_order p.in_tileid_order ≡ false))
probe_lem_example = probe_lem zxy walked_tiles sorted_tiles refl

-- Some arithmetic: the theorems hold of any.
abbrev ar : Arith
ar = record {
  add = λ a b. a + b;
  sub = λ a b. a - b;
  mul = λ a b. a * b;
  div = λ a b. a;
  sqrt = λ a. a;
  square = λ a. a * a;
  sum = λ l. length l;
  of_nat = λ n. n;
  floor = λ v. v;
  ceil = λ v. v;
}

-- The bits of 2.0, 1.0 and 3.0
abbrev samples : List ℕ
samples = 0x4000000000000000 ∷ 0x3ff0000000000000 ∷ 0x4008000000000000 ∷ []

summarise_lem_example :
    ((is_comparable samples ≡ true)
      × (s : Summary) × (summarise ar samples seed ≡ some (some s))
      × Summarises samples s)
    ⊎ ((is_comparable samples ≡ true)
        × (summarise ar samples seed ≡ none)
        × HasNanMedian ar samples seed)
    ⊎ ((is_comparable samples ≡ false) × (summarise ar samples seed ≡ none))
summarise_lem_example = summarise_lem ar samples seed (omega arith)

abbrev report : CellReport
report = record {
  labels = record {
    backend = "pmtiles";
    scale = 4;
    source = "gradient";
    cell = "512x512/256:gradient";
  };
  scenario = "open";
  metric = record { name = "cold"; unit = milliseconds; direction = lower_is_better };
  isolation = process_per_rep;
  oversubscribed = none;
  warmup = none;
  discarded_warmup = [];
  reps_declared = 3;
  min_reps = 3;
  samples = samples;
  outcome = succeeded;
  reason = none;
  invariants = invariant_block (record {
    output_bytes = some 9000;
    allocated_bytes = none;
    filesystem_entries = some 1;
    directories = none;
    tiles_produced = some 4;
    artefact_digest = none;
    root_entries = none;
    leaves = none;
    requests = none;
    request_bytes = none;
  });
  machine_load = unknown_load;
  timer = none;
}

confidence-from_report_example :
    ((summary : Option Summary) × (cell : DocumentCell) × (summarise ar samples seed ≡ some summary)
      × (from_report ar show report ≡ some cell)
      × (cell.confidence ≡ (if is_trusted ar report summary then "high" else "low"))
      × (is_empty cell.low_confidence_reasons ≡ is_trusted ar report summary))
    ⊎ ((summarise ar samples seed ≡ none) × (from_report ar show report ≡ none))
confidence-from_report_example = confidence-from_report ar show report

abbrev cells_of : Option DocumentCell → List DocumentCell
cells_of none = []
cells_of (some cell) = cell ∷ []

abbrev measured : List DocumentCell
measured = cells_of (from_report ar show report) ++ cells_of (from_report ar show report)

-- A document of one cell, of a dirty tree.
abbrev dirty_document : Document
dirty_document =
    let d =
      new (record { tick_ns = 0x4044800000000000; call_ns = 0x4034000000000000 }) ci
        "2025-01-02T03:04:05Z" in
    record d {
      provenance = some (object (entry "dirty" (bool true) empty));
      cells = cells_of (from_report ar show report);
    }

check_stamps-stamped_example :
    check_stamps crates (to_value (stamp_dirty_from_provenance dirty_document)) ≡ []
unfolding at to_value lookup split_on
check_stamps-stamped_example = check_stamps-stamped crates dirty_document refl

run_id-stamp_run_id_example :
    (run_id crates (to_value (stamp_run_id crates dirty_document))
      ≡ run_id crates (to_value dirty_document))
    × ((get (to_value (stamp_run_id crates dirty_document)) "runId" >>? as_str)
        ≡ ok_or_none (run_id crates (to_value (stamp_run_id crates dirty_document))))
run_id-stamp_run_id_example = run_id-stamp_run_id crates dirty_document

-- An engine that writes one tile and asks for the finish, of a sink that accepts every call.
abbrev engine : Run
engine = asks (write_tile (1 ∷ [])) (λ a. asks finish (λ b. ends (ok 1)))

abbrev accepts : List Event → Event → Answer
accepts events event = ok tt

abbrev readings : Readings
readings = record {
  ingest = 7;
  finalize = 2;
  ingest_peak_bytes = none;
  ingest_live_bytes = none;
  finalize_peak_bytes = none;
}

walk_lem_example :
    IsWalk accepts
      (WriteSplit.walk accepts readings "tree" engine)
      (reaches (calls_of accepts engine []))
      (end_of accepts engine [])
      (finishes (calls_of accepts engine []))
walk_lem_example = walk_lem accepts readings "tree" engine

abbrev priced_document : Document
priced_document = record dirty_document { cells = measured }

entries_for-IsPriced_example : All (IsPriced ar measured) (entries_for ar priced_document)
entries_for-IsPriced_example = entries_for-IsPriced ar priced_document
