-- ===== src/Scenarios.antt =====
-- src/storage/scenarios/mod.rs: what the scenarios of the storage sweep share: where they run, the
-- warm-up, metrics with their unit and direction, and the outcomes of a cell.
pub mod Concurrent
pub mod TileId
pub mod WriteSplit
use libviprs_bench.Base.{ℕ, String, List, Option, none, some}

pub data Isolation : Type 0 where
  process_per_rep : Isolation
  process_per_scenario : Isolation

unfoldable pub isolation_name : Isolation → String
isolation_name process_per_rep = "process-per-rep"
isolation_name process_per_scenario = "process-per-scenario"

pub record Warmup : Type 0 where
  pub policy : String
  pub passes : ℕ

abbrev pub one_discarded_pass : Warmup
one_discarded_pass = record { policy = "one-discarded-pass"; passes = 1 }

pub data Direction : Type 0 where
  lower_is_better : Direction
  higher_is_better : Direction

unfoldable pub direction_name : Direction → String
direction_name lower_is_better = "lower-is-better"
direction_name higher_is_better = "higher-is-better"

pub data MetricUnit : Type 0 where
  milliseconds microseconds per_second bytes count ratio megabytes : MetricUnit
  per_second_per_megabyte megabyte_seconds_per_tile : MetricUnit

unfoldable pub unit_name : MetricUnit → String
unit_name milliseconds = "ms"
unit_name microseconds = "us"
unit_name per_second = "1/s"
unit_name bytes = "bytes"
unit_name count = "count"
unit_name ratio = "ratio"
unit_name megabytes = "MB"
unit_name per_second_per_megabyte = "1/s/MB"
unit_name megabyte_seconds_per_tile = "MB*s/tile"

pub record MetricSpec : Type 0 where
  pub name : String
  pub unit : MetricUnit
  pub direction : Direction

-- Samples are `f64` bit patterns.
pub record Series : Type 0 where
  pub metric : MetricSpec
  pub samples : List ℕ

pub data Outcome : Type 0 where
  succeeded skipped failed refused timeout : Outcome

unfoldable pub outcome_name : Outcome → String
outcome_name succeeded = "ok"
outcome_name skipped = "skipped"
outcome_name failed = "failed"
outcome_name refused = "refused"
outcome_name timeout = "timeout"

pub record Skip : Type 0 where
  pub outcome : Outcome
  pub reason : String

unfoldable pub skip_skipped : String → Skip
skip_skipped reason = record { outcome = skipped; reason = reason }

unfoldable pub skip_failed : String → Skip
skip_failed reason = record { outcome = failed; reason = reason }
