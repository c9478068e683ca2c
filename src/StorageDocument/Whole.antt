-- ===== src/StorageDocument/Whole.antt =====
-- src/storage/document.rs: the document, and its operations.
use libviprs_bench.Base.{
  ℕ, String, Bool, true, false, ◌||◌, List, [], ◌∷◌, ◌++◌, map, Option, none, some, if◌then◌else◌,
}
use libviprs_bench.Json.{Value, bool, get}
use libviprs_bench.Cells.Profiles
use libviprs_bench.Cells.Profiles.{Profile}
use libviprs_bench.Statistics.{TimerProbe}
use libviprs_bench.StorageDocument.{
  schema_version, family, runner, Measurement, probed, MachineLoad,
}
use libviprs_bench.StorageDocument.Cell.{DocumentCell}
use libviprs_bench.StorageDocument.Table.{InvariantEntry, invariant_table}

pub record ModelledEntry : Type 0 where
  pub library : String
  pub scale : ℕ
  pub name : String
  pub value : ℕ
  pub unit : String
  pub model : Value

pub record ReplicateEstimator : Type 0 where
  pub method : String
  pub reps : ℕ
  pub coverage : ℕ
  pub multiplier : ℕ
  pub dropped_metrics : ℕ

pub record ReplicateBlock : Type 0 where
  pub cell : String
  pub replicate_reps : ℕ
  pub estimator : Option ReplicateEstimator
  pub spread_pct : Value
  pub drift_pct : Value
  pub residual_pct : Value

pub record Document : Type 0 where
  pub schema_version : ℕ
  pub family : String
  pub runner : String
  pub profile : String
  pub started_at : String
  pub finished_at : Option String
  pub run_id : Option String
  pub starting_load : Option MachineLoad
  pub measurement : Measurement
  pub provenance : Option Value
  pub cells : List DocumentCell
  pub invariants : List InvariantEntry
  pub modelled : List ModelledEntry
  pub replicate : Option ReplicateBlock
  pub integrity : Option Value

unfoldable pub new_for : String → String → String → String → Measurement → Document
new_for family runner profile started_at measurement = record {
  schema_version = schema_version;
  family = family;
  runner = runner;
  profile = profile;
  started_at = started_at;
  finished_at = none;
  run_id = none;
  starting_load = none;
  measurement = measurement;
  provenance = none;
  cells = [];
  invariants = [];
  modelled = [];
  replicate = none;
  integrity = none;
}

unfoldable pub new : TimerProbe → Profile → String → Document
unfolding new_for probed Profiles.label
new probe profile started_at =
    new_for family runner (Profiles.label profile) started_at (probed probe profile)

unfoldable pub push : DocumentCell → Document → Document
push cell doc = record doc { cells = doc.cells ++ cell ∷ [] }

unfoldable pub rebuild_invariant_table : Document → Document
unfolding invariant_table
rebuild_invariant_table doc = record doc { invariants = invariant_table doc.cells }

-- `flag(path)`: the value at the path is true.
unfoldable pub flag_at : Option Value → List String → Bool
flag_at none path = false
flag_at (some (bool b)) [] = b
flag_at (some cursor) [] = false
flag_at (some cursor) (key ∷ path) = flag_at (get cursor key) path

unfoldable pub tree_is_dirty : Option Value → Bool
unfolding flag_at
tree_is_dirty provenance =
    flag_at provenance ("dirty" ∷ []) || flag_at provenance ("library" ∷ "dirty" ∷ [])

unfoldable pub stamp_cell : DocumentCell → DocumentCell
stamp_cell cell = record cell { dirty = some true }

unfoldable pub stamp_dirty_from_provenance : Document → Document
unfolding tree_is_dirty stamp_cell
stamp_dirty_from_provenance doc =
    if tree_is_dirty doc.provenance then record doc { cells = map stamp_cell doc.cells } else doc
