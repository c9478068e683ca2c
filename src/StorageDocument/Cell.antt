-- ===== src/StorageDocument/Cell.antt =====
-- src/storage/document.rs: a cell of the document, and how it is made of a report.
pub mod Confidence
use mathlib.Core.Option
use libviprs_bench.Base.{
  ℕ, ◌%◌, ◌^◌, String, Bool, true, false, List, [], ◌∷◌, ◌++◌, Option, none, some, ◌&◌, show,
  length, if◌then◌else◌, ltb,
}
use libviprs_bench.Cells
use libviprs_bench.Cells.{spec}
use libviprs_bench.Cells.Backends
use libviprs_bench.Cells.Backends.{Backend}
use libviprs_bench.Cells.Sources
use libviprs_bench.Integrity.{is_empty}
use libviprs_bench.Scenarios.{
  Isolation, isolation_name, Warmup, MetricSpec, MetricUnit, microseconds, milliseconds, unit_name,
  direction_name, Outcome, outcome_name,
}
use libviprs_bench.Json.{◌>>?◌}
use libviprs_bench.Statistics.{
  Arith, Summary, summarise, TimerProbe, timer_saturated, tail_name, float_ltb, cov_low_confidence,
}
use libviprs_bench.StorageDocument.{
  seed, WarmupBlock, warmup_block, MachineLoad, TailBlock, InvariantBlock,
}

pub record DocumentCell : Type 0 where
  pub backend : String
  pub scale : ℕ
  pub source : String
  pub cell : String
  pub scenario : String
  pub metric : String
  pub key : String
  pub unit : String
  pub direction : String
  pub isolation : String
  pub oversubscribed : Option Bool
  pub warmup : Option WarmupBlock
  pub discarded_warmup : List ℕ
  pub reps : ℕ
  pub min_reps : ℕ
  pub outcome : String
  pub reason : Option String
  pub samples : List ℕ
  pub median : Option ℕ
  pub min : Option ℕ
  pub max : Option ℕ
  pub iqr : Option ℕ
  pub cov : Option ℕ
  pub ci95 : Option (ℕ × ℕ)
  pub ci_half_width_pct : Option ℕ
  pub p95_of_samples : Option ℕ
  pub tail : Option TailBlock
  pub timer_saturated : Option Bool
  pub steady_state : Option String
  pub confidence : String
  pub low_confidence_reasons : List String
  pub machine_load : MachineLoad
  pub invariants : InvariantBlock
  pub attested : Option Bool
  pub dirty : Option Bool

pub record CellLabels : Type 0 where
  pub backend : String
  pub scale : ℕ
  pub source : String
  pub cell : String

unfoldable pub storage_labels : Backend → Cells.Cell → CellLabels
unfolding spec Cells.Backends.as_str Cells.Sources.as_str
storage_labels backend cell = record {
  backend = Cells.Backends.as_str backend;
  scale = cell.declared_tiles;
  source = Cells.Sources.as_str cell.source;
  cell = spec cell;
}

pub record CellReport : Type 0 where
  pub labels : CellLabels
  pub scenario : String
  pub metric : MetricSpec
  pub isolation : Isolation
  pub oversubscribed : Option Bool
  pub warmup : Option Warmup
  pub discarded_warmup : List ℕ
  pub reps_declared : ℕ
  pub min_reps : ℕ
  pub samples : List ℕ
  pub outcome : Outcome
  pub reason : Option String
  pub invariants : InvariantBlock
  pub machine_load : MachineLoad
  pub timer : Option TimerProbe

abbrev pub cov_of : Option Summary → Option ℕ
cov_of none = none
cov_of (some s) = s.cov

abbrev pub half_width_of : Option Summary → Option ℕ
half_width_of none = none
half_width_of (some s) = s.ci_half_width_pct

-- `as u32` of the number of samples
abbrev pub sample_count : CellReport → ℕ
sample_count report = length report.samples % 2 ^ 32

few_samples : CellReport → List String
few_samples report =
    if ltb (sample_count report) report.min_reps
    then ("fewer than minReps: " & show (length report.samples) & " of " & show report.min_reps)
      ∷ []
    else []

not_quiet : Option Bool → List String
not_quiet (some true) = []
not_quiet (some false) = "machine not quiet" ∷ []
not_quiet none = "machine load unknown" ∷ []

saturated_reason : Option Bool → List String
saturated_reason (some true) = "timer saturated" ∷ []
saturated_reason (some false) = []
saturated_reason none = []

module _ (arith : Arith) where
  -- A median in micro- or milliseconds as nanoseconds, against the timer.
  unfoldable pub saturation : Option Summary → Option TimerProbe → MetricUnit → Option Bool
  unfolding timer_saturated
  saturation (some s) (some probe) microseconds =
      some (timer_saturated arith (arith.mul s.median 0x408f400000000000) probe)
  saturation (some s) (some probe) milliseconds =
      some (timer_saturated arith (arith.mul s.median 0x412e848000000000) probe)
  saturation _ _ _ = none

-- `fixed` is `{:.3}` of a float.
module _ (arith : Arith) (fixed : ℕ → String) where
  wide_spread : Option ℕ → List String
  wide_spread none = []
  wide_spread (some cov) =
      if float_ltb cov_low_confidence cov then ("cov " & fixed cov & " above 0.15") ∷ [] else []

  unfoldable pub low_confidence : CellReport → Option Summary → List String
  unfolding few_samples wide_spread not_quiet saturated_reason saturation
  low_confidence report summary =
      few_samples report
      ++ (wide_spread (cov_of summary)
          ++ (not_quiet report.machine_load.quiet
              ++ saturated_reason (saturation arith summary report.timer report.metric.unit)))

  cell_of : CellReport → Option Summary → List String → DocumentCell
  unfolding saturation warmup_block unit_name direction_name isolation_name outcome_name tail_name
  cell_of report summary reasons = record {
    backend = report.labels.backend;
    scale = report.labels.scale;
    source = report.labels.source;
    cell = report.labels.cell;
    scenario = report.scenario;
    metric = report.metric.name;
    key = report.scenario & "." & report.metric.name;
    unit = unit_name report.metric.unit;
    direction = direction_name report.metric.direction;
    isolation = isolation_name report.isolation;
    oversubscribed = report.oversubscribed;
    warmup = Option.map warmup_block report.warmup;
    discarded_warmup = report.discarded_warmup;
    reps = report.reps_declared;
    min_reps = report.min_reps;
    outcome = outcome_name report.outcome;
    reason = report.reason;
    samples = report.samples;
    median = Option.map (λ s. s.median) summary;
    min = Option.map (λ s. s.min) summary;
    max = Option.map (λ s. s.max) summary;
    iqr = Option.map (λ s. s.iqr) summary;
    cov = cov_of summary;
    ci95 = Option.map (λ s. s.ci95) summary;
    ci_half_width_pct = half_width_of summary;
    p95_of_samples = Option.map (λ s. s.p95_of_samples) summary;
    tail =
        Option.map (λ s. record { statistic = tail_name s.tail.kind; value = s.tail.value })
          summary;
    timer_saturated = saturation arith summary report.timer report.metric.unit;
    steady_state = none;
    confidence = if is_empty reasons then "high" else "low";
    low_confidence_reasons = reasons;
    machine_load = report.machine_load;
    invariants = report.invariants;
    attested = none;
    dirty = none;
  }

  -- `none` is a panic of `summarise`.
  unfoldable pub from_report : CellReport → Option DocumentCell
  unfolding cell_of low_confidence
  from_report report = summarise arith report.samples seed >>? λ summary.
      some (cell_of report summary (low_confidence report summary))
