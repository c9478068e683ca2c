-- ===== src/Samples/Parts.antt =====
-- The theorems about cells, schedules, digests, canonical texts, runs and histories, at small inputs.
use Prim.Native.Nat.{max}
use libviprs_bench.Base.{
  if◌then◌else◌, ℕ, ◌<◌, ◌≤◌, ◌+◌, ◌*◌, Bool, true, false, ◌==◌, List, [], ◌∷◌, Option, none, some,
  ◌≡◌, refl, subst, Bool-cases, inl, inr, ok, err, arith, length, leb, codes, All, str_eq,
  str_eq_iff, ◌++◌, ◌↔◌,
}
use libviprs_bench.Json.{number, unsigned, Map, entry, empty, object, IsUnique, lookup}
use libviprs_bench.Json.Keys.{SameLookups}
use libviprs_bench.Planner.{Planner}
use libviprs_bench.Canonical.{write_canonical}
use libviprs_bench.Canonical.Maps.{write_canonical-same}
use libviprs_bench.Cells.{Cell, parse, spec, planned_tiles}
use libviprs_bench.Cells.Sources
use libviprs_bench.Cells.Spec.{parse-spec}
use libviprs_bench.Cells.Coordinates.{
  Walked, Planned, Walked-coordinates, tile_count, length-coordinates,
}
use libviprs_bench.Cells.{coordinates}
use libviprs_bench.Planner.{Plan, Coord}
use libviprs_bench.Replicate.{
  schedule, placements, has_adjacent_placements, measured_first_and_last,
}
use libviprs_bench.Replicate.Schedule.{schedule-placements, others, others-schedule}
use libviprs_bench.Sha256.{sha256_hex}
use libviprs_bench.Sha256.Hex.{IsLowerHex, sha256_hex_form}
use libviprs_bench.History.{BenchmarkSnapshot, push_snapshot, migrate_snapshot, is_blank}
use libviprs_bench.History.Families.{push_snapshot-ok}
use libviprs_bench.History.Migrated.{Relabelled, migrate_snapshot_lem}
use libviprs_bench.Repetitions.{Invariants, RepFacts, WireSeries, WireRun, agreed, merge}
use libviprs_bench.Repetitions.Agreed.{agreed-Shared}
use libviprs_bench.Repetitions.Merged.{samples_of, all_samples, samples-merge}
use libviprs_bench.Samples.Documents.{fmt, hash}

schedule-placements_example :
    (placements (λ m n. m == n) (schedule 9 (1 ∷ 2 ∷ [])) 9 ≡ 3)
    × (has_adjacent_placements (λ m n. m == n) (schedule 9 (1 ∷ 2 ∷ [])) 9 ≡ false)
    × (measured_first_and_last (λ m n. m == n) (schedule 9 (1 ∷ 2 ∷ [])) 9 ≡ true)
schedule-placements_example =
    schedule-placements (λ m n. m == n) 9 refl (1 ∷ 2 ∷ []) (refl, (refl, tt))

others-schedule_example : others (λ m n. m == n) 9 (schedule 9 (1 ∷ 2 ∷ [])) ≡ 1 ∷ 2 ∷ []
others-schedule_example = others-schedule (λ m n. m == n) 9 refl (1 ∷ 2 ∷ []) (refl, (refl, tt))

-- One level of two columns and one row, whatever the canvas.
abbrev two_tiles : Plan
two_tiles = record { level = 0; cols = 2; rows = 1 } ∷ []

abbrev planner : Planner
planner _ _ _ = some two_tiles

abbrev small : Cell
small = record {
  width = 512;
  height = 256;
  tile_px = 256;
  source = Sources.gradient;
  declared_tiles = 2;
}

planned : planned_tiles planner small ≡ some 2
unfolding planned_tiles coordinates
planned = refl

parse-spec_example : parse planner (spec small) ≡ some small
parse-spec_example =
    parse-spec planner small
      (record { width = omega arith; height = omega arith; tile_px = omega arith }) planned

length-coordinates_example : length (coordinates two_tiles) ≡ tile_count two_tiles
length-coordinates_example = length-coordinates two_tiles

sha256_hex_form_example :
    (length (codes (sha256_hex hash [])) ≡ 64) × All IsLowerHex (codes (sha256_hex hash []))
sha256_hex_form_example = sha256_hex_form hash []

abbrev one : Map
one = entry "a" (number (unsigned 1)) (entry "b" (number (unsigned 2)) empty)

abbrev other : Map
other = entry "b" (number (unsigned 2)) (entry "a" (number (unsigned 1)) empty)

one-IsUnique : IsUnique one
one-IsUnique = (refl, (refl, tt))

other-IsUnique : IsUnique other
other-IsUnique = (refl, (refl, tt))

same_lookups : SameLookups one other
unfolding lookup
same_lookups k = elim (Bool-cases (str_eq "a" k)) [
  | inl a ↦ subst (λ x. lookup x one ≡ lookup x other) ((str_eq_iff "a" k).0 a) refl
  | inr not_a ↦ rw not_a refl
]

one_written : write_canonical fmt (object one) "$" ≡ ok (codes "{\"a\":1,\"b\":2}")
unfolding write_canonical libviprs_bench.Canonical.write_object libviprs_bench.Base.is_ascii
    libviprs_bench.Canonical.canonical_number
one_written = refl

write_canonical-same_example :
    write_canonical fmt (object other) "$" ≡ ok (codes "{\"a\":1,\"b\":2}")
write_canonical-same_example =
    write_canonical-same fmt one other "$" one-IsUnique other-IsUnique same_lookups one_written

abbrev second : Coord
second = record { level = 0; col = 1; row = 0 }

Walked-coordinates_example : Walked second (coordinates two_tiles) ↔ Planned second two_tiles
Walked-coordinates_example = Walked-coordinates second two_tiles

abbrev snapshot : BenchmarkSnapshot ℕ ℕ
snapshot = record {
  schema_version = 0;
  family = "engines";
  provenance = 0;
  version = "0.3.1";
  git_sha = "abc";
  timestamp = "2026";
  tile_size = 256;
  memory_budget_bytes = 1;
  runs = record { label = "1024x1024 c0 monolithic"; measured = 5 } ∷ [];
}

pushed : push_snapshot (snapshot ∷ []) snapshot ≡ ok (snapshot ∷ snapshot ∷ [])
unfolding push_snapshot libviprs_bench.Base.trim
pushed = refl

push_snapshot-ok_example :
    (is_blank "engines" ≡ false)
    × ((snapshot ∷ snapshot ∷ []) ≡ (snapshot ∷ []) ++ snapshot ∷ [])
    × All (λ (s : BenchmarkSnapshot ℕ ℕ). s.family ≡ "engines") (snapshot ∷ snapshot ∷ [])
push_snapshot-ok_example = push_snapshot-ok (snapshot ∷ []) snapshot pushed

migrate_snapshot_lem_example :
    (is_blank (migrate_snapshot snapshot).family ≡ false)
    × ((migrate_snapshot snapshot).family ≡ (if is_blank "engines" then "vips" else "engines"))
    × ((migrate_snapshot snapshot).schema_version ≡ max 0 3)
    × Relabelled snapshot.runs (migrate_snapshot snapshot).runs
    × (record (migrate_snapshot snapshot) {
      family = snapshot.family;
      schema_version = snapshot.schema_version;
      runs = snapshot.runs;
    }
        ≡ snapshot)
    × (migrate_snapshot (migrate_snapshot snapshot) ≡ migrate_snapshot snapshot)
migrate_snapshot_lem_example = migrate_snapshot_lem snapshot

abbrev seen : Invariants
seen = record {
  output_bytes = some 5;
  allocated_bytes = none;
  filesystem_entries = none;
  directories = none;
  tiles_produced = some 2;
  artefact_digest = none;
  root_entries = none;
  leaves = none;
  requests = none;
  request_bytes = none;
}

abbrev rep : RepFacts
rep = record { invariants = seen; scratch = none }

agree_on_all : (agreed (rep ∷ rep ∷ [])).1 ≡ []
unfolding agreed
agree_on_all = refl

agreed-Shared_example :
    All (λ (r : RepFacts). r.invariants ≡ (agreed (rep ∷ rep ∷ [])).0) (rep ∷ rep ∷ [])
agreed-Shared_example = agreed-Shared (rep ∷ rep ∷ []) agree_on_all

abbrev cold : WireSeries
cold = record { metric = "cold"; unit = "ms"; direction = "lower"; samples = 1 ∷ [] }

abbrev run : WireRun
run = record {
  outcome = "ok";
  reason = none;
  series = cold ∷ [];
  reps = rep ∷ [];
  discarded_warmup = [];
  peak_rss_bytes = some 3;
  heap_peak_bytes = none;
}

samples-merge_example :
    samples_of "cold" (merge (some run) run).series
    ≡ samples_of "cold" run.series ++ all_samples "cold" run.series
samples-merge_example = samples-merge "cold" run run
