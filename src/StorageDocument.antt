-- ===== src/StorageDocument.antt =====
-- src/storage/document.rs: the blocks of a storage document and the document, and its operations:
-- `new_for`, `new`, `push` and the stamps.
pub mod Cell
pub mod Table
pub mod Whole
pub mod Wire
pub mod Stamps
use libviprs_bench.Base.{
  ℕ, zero, suc, ◌/◌, ◌%◌, ◌&◌, String, Bool, true, false, ◌||◌, List, [], ◌∷◌, ◌++◌, map, Option,
  none, some, if◌then◌else◌, str_eq, str_ltb, ltb, ◌==◌,
}
use mathlib.Core.Option
use libviprs_bench.Json.{Value, get, as_bool}
use libviprs_bench.Cells.Profiles
use libviprs_bench.Cells.Profiles.{Profile, ci, full, xl}
use libviprs_bench.Repetitions.{Invariants}
use libviprs_bench.Scenarios.{Warmup, one_discarded_pass}
use libviprs_bench.Statistics.{
  TimerProbe, float_ltb, one, min_ticks_per_sample, bootstrap_level, bootstrap_resamples,
  cov_low_confidence,
}
use libviprs_bench.Sha256.{from_digit}

abbrev pub schema_version : ℕ
schema_version = 2

abbrev pub family : String
family = "libviprs-storage"

abbrev pub runner : String
runner = "libviprs-storage"

-- src/storage/cells.rs
abbrev pub seed : ℕ
seed = 0x5eed1234abcd0001

-- A `BTreeMap` by its entries in the order of their keys.
abbrev pub Reps : Type 0
Reps = List (String × ℕ)

insert_reps : String → ℕ → Reps → Reps
insert_reps kind n [] = (kind, n) ∷ []
insert_reps kind n ((k, m) ∷ reps) =
    let rest = insert_reps kind n reps in
    if str_eq k kind
    then (kind, n) ∷ reps
    else if str_ltb k kind
    then (k, m) ∷ rest
    else (kind, n) ∷ (k, m) ∷ reps

reps_onto : Reps → List (String × ℕ) → Reps
unfolding insert_reps
reps_onto reps [] = reps
reps_onto reps ((kind, n) ∷ pairs) = reps_onto (insert_reps kind n reps) pairs

unfoldable pub reps_of : List (String × ℕ) → Reps
unfolding reps_onto
reps_of pairs = reps_onto [] pairs

unfoldable pub get_reps : String → Reps → Option ℕ
get_reps kind [] = none
get_reps kind ((k, n) ∷ reps) = if str_eq k kind then some n else get_reps kind reps

pub record IntervalSpec : Type 0 where
  pub statistic : String
  pub method : String
  pub level : ℕ
  pub resamples : ℕ

pub record WarmupBlock : Type 0 where
  pub policy : String
  pub passes : ℕ

unfoldable pub warmup_block : Warmup → WarmupBlock
warmup_block w = record { policy = w.policy; passes = w.passes }

pub record Measurement : Type 0 where
  pub unit : String
  pub isolation : String
  pub reps : Reps
  pub min_reps : Reps
  pub seed : String
  pub clock : String
  pub timer_tick_ns : Option ℕ
  pub timer_call_ns : Option ℕ
  pub min_ticks_per_sample : ℕ
  pub warmup : Option WarmupBlock
  pub interval : IntervalSpec
  pub tie_band_pct : ℕ
  pub cov_low_confidence : ℕ
  pub fresh_process_per_cell : Bool
  pub page_cache : String

pub record MeasurementSpec : Type 0 where
  pub unit : String
  pub isolation : String
  pub reps : Reps
  pub min_reps : Reps
  pub seed : ℕ
  pub warmup : Option Warmup
  pub page_cache : String

-- The lowest `digits` hexadecimal digits.
hex_digits : ℕ → ℕ → String
unfolding from_digit
hex_digits zero n = ""
hex_digits (suc digits) n = hex_digits digits (n / 16) & from_digit (n % 16)

-- `{:#018x}`
seed_text : ℕ → String
unfolding hex_digits
seed_text n = "0x" & hex_digits 16 n

-- The timer was probed before.
unfoldable pub probed_from : TimerProbe → MeasurementSpec → Measurement
unfolding seed_text warmup_block
probed_from probe spec = record {
  unit = spec.unit;
  isolation = spec.isolation;
  reps = spec.reps;
  min_reps = spec.min_reps;
  seed = seed_text spec.seed;
  clock = "std::time::Instant";
  timer_tick_ns = some probe.tick_ns;
  timer_call_ns = some probe.call_ns;
  min_ticks_per_sample = min_ticks_per_sample;
  warmup = Option.map warmup_block spec.warmup;
  interval = record {
    statistic = "median";
    method = "percentile-bootstrap";
    level = bootstrap_level;
    resamples = bootstrap_resamples;
  };
  tie_band_pct = 0x4008000000000000;
  cov_low_confidence = cov_low_confidence;
  fresh_process_per_cell = true;
  page_cache = spec.page_cache;
}

unfoldable pub generate_reps : Profile → ℕ
generate_reps ci = 3
generate_reps full = 7
generate_reps xl = 7

unfoldable pub read_reps : Profile → ℕ
read_reps ci = 3
read_reps full = 20
read_reps xl = 20

unfoldable pub probed : TimerProbe → Profile → Measurement
unfolding reps_of generate_reps read_reps probed_from
probed probe profile =
    let reps = reps_of (("generate", generate_reps profile) ∷ ("read", read_reps profile) ∷ []) in
    probed_from probe (record {
      unit = "fresh-process-per-cell";
      isolation = "subprocess-per-cell";
      reps = reps;
      min_reps = reps;
      seed = seed;
      warmup = some one_discarded_pass;
      page_cache = "warm-unknown";
    })

pub record MachineLoad : Type 0 where
  pub cores : Option ℕ
  pub load_avg_1m : Option ℕ
  pub contention_per_core : Option ℕ
  pub quiet : Option Bool

abbrev contention : (ℕ → ℕ → ℕ) → Option ℕ → Option ℕ → Option ℕ
contention per load none = none
contention per none (some c) = none
contention per (some l) (some c) = if ltb 0 c then some (per l c) else none

-- `per l c` is `l / c as f64`.
unfoldable pub sample_load : (ℕ → ℕ → ℕ) → Option ℕ → Option ℕ → MachineLoad
sample_load per load cores = record {
  cores = cores;
  load_avg_1m = load;
  contention_per_core = contention per load cores;
  quiet = Option.map (λ c. float_ltb c one) (contention per load cores);
}

abbrev pub unknown_load : MachineLoad
unknown_load = record { cores = none; load_avg_1m = none; contention_per_core = none; quiet = none }

pub record TailBlock : Type 0 where
  pub statistic : String
  pub value : ℕ

pub record InvariantBlock : Type 0 where
  pub output_bytes : Option ℕ
  pub allocated_bytes : Option ℕ
  pub filesystem_entries : Option ℕ
  pub directories : Option ℕ
  pub tiles_produced : Option ℕ
  pub artefact_digest : Option String
  pub root_entries : Option ℕ
  pub leaves : Option ℕ
  pub requests : Option ℕ
  pub request_bytes : Option ℕ
  pub peak_rss_mb : Option ℕ
  pub heap_peak_bytes : Option ℕ

unfoldable pub invariant_block : Invariants → InvariantBlock
invariant_block i = record {
  output_bytes = i.output_bytes;
  allocated_bytes = i.allocated_bytes;
  filesystem_entries = i.filesystem_entries;
  directories = i.directories;
  tiles_produced = i.tiles_produced;
  artefact_digest = i.artefact_digest;
  root_entries = i.root_entries;
  leaves = i.leaves;
  requests = i.requests;
  request_bytes = i.request_bytes;
  peak_rss_mb = none;
  heap_peak_bytes = none;
}
