-- ===== src/StorageDocument/Wire.antt =====
-- src/storage/document.rs: the JSON that the derived serialisation of the document's structs makes,
-- under the names of their `serde` attributes, and the run id that is derived from it.
use libviprs_bench.Base.{
  ℕ, String, List, [], ◌∷◌, map, Option, none, some, if◌then◌else◌, Result, ok, err,
}
use libviprs_bench.Json.{
  Value, null, bool, number, unsigned, float, string, array, object, Map, empty, entry, items,
}
use libviprs_bench.Format.{is_finite}
use libviprs_bench.Archive.RunId.{run_id}
use libviprs_bench.Crates.{Crates}
use libviprs_bench.StorageDocument.{
  Reps, IntervalSpec, WarmupBlock, Measurement, MachineLoad, TailBlock, InvariantBlock,
}
use libviprs_bench.StorageDocument.Cell.{DocumentCell}
use libviprs_bench.StorageDocument.Table.{InvariantEntry}
use libviprs_bench.StorageDocument.Whole.{
  ModelledEntry, ReplicateEstimator, ReplicateBlock, Document,
}

abbrev pub or_null : {A : Type 0} → (A → Value) → Option A → Value
or_null to none = null
or_null to (some a) = to a

abbrev pub natural : ℕ → Value
natural n = number (unsigned n)

-- A float that is not finite is written as null.
unfoldable pub float_value : ℕ → Value
float_value v = if is_finite v then number (float v) else null

interval_value : ℕ × ℕ → Value
unfolding float_value
interval_value (lo, hi) = array (items (float_value lo ∷ float_value hi ∷ []))

reps_map : Reps → Map
reps_map [] = empty
reps_map ((kind, n) ∷ reps) = entry kind (natural n) (reps_map reps)

warmup_value : WarmupBlock → Value
warmup_value w = object (entry "policy" (string w.policy) (entry "passes" (natural w.passes) empty))

interval_spec_value : IntervalSpec → Value
unfolding float_value
interval_spec_value i = object (
    entry "statistic" (string i.statistic) (
      entry "method" (string i.method)
        (entry "level" (float_value i.level) (entry "resamples" (natural i.resamples) empty))))

load_value : MachineLoad → Value
unfolding float_value
load_value l = object (
    entry "cores" (or_null natural l.cores) (
      entry "loadAvg1m" (or_null float_value l.load_avg_1m) (
        entry "contentionPerCore" (or_null float_value l.contention_per_core)
          (entry "quiet" (or_null bool l.quiet) empty))))

tail_value : TailBlock → Value
unfolding float_value
tail_value t =
    object (entry "statistic" (string t.statistic) (entry "value" (float_value t.value) empty))

-- Entries one after the other.
unfoldable pub entries : List (String × Value) → Map
entries [] = empty
entries ((key, value) ∷ rest) = entry key value (entries rest)

measurement_value : Measurement → Value
unfolding entries reps_map float_value warmup_value interval_spec_value
measurement_value m = object (
    entries (
      ("unit", string m.unit)
      ∷ ("isolation", string m.isolation)
      ∷ ("reps", object (reps_map m.reps))
      ∷ ("minReps", object (reps_map m.min_reps))
      ∷ ("seed", string m.seed)
      ∷ ("clock", string m.clock)
      ∷ ("timerTickNs", or_null float_value m.timer_tick_ns)
      ∷ ("timerCallNs", or_null float_value m.timer_call_ns)
      ∷ ("minTicksPerSample", float_value m.min_ticks_per_sample)
      ∷ ("warmup", or_null warmup_value m.warmup)
      ∷ ("interval", interval_spec_value m.interval)
      ∷ ("tieBandPct", float_value m.tie_band_pct)
      ∷ ("covLowConfidence", float_value m.cov_low_confidence)
      ∷ ("freshProcessPerCell", bool m.fresh_process_per_cell)
      ∷ ("pageCache", string m.page_cache)
      ∷ []))

invariants_value : InvariantBlock → Value
unfolding entries float_value
invariants_value i = object (
    entries (
      ("outputBytes", or_null natural i.output_bytes)
      ∷ ("allocatedBytes", or_null natural i.allocated_bytes)
      ∷ ("filesystemEntries", or_null natural i.filesystem_entries)
      ∷ ("directories", or_null natural i.directories)
      ∷ ("tilesProduced", or_null natural i.tiles_produced)
      ∷ ("artefactDigest", or_null string i.artefact_digest)
      ∷ ("rootEntries", or_null natural i.root_entries)
      ∷ ("leaves", or_null natural i.leaves)
      ∷ ("requests", or_null natural i.requests)
      ∷ ("requestBytes", or_null natural i.request_bytes)
      ∷ ("peakRssMb", or_null float_value i.peak_rss_mb)
      ∷ ("heapPeakBytes", or_null natural i.heap_peak_bytes)
      ∷ []))

unfoldable pub cell_value : DocumentCell → Value
unfolding entries float_value warmup_value interval_value tail_value load_value invariants_value
cell_value c = object (
    entries (
      ("backend", string c.backend)
      ∷ ("scale", natural c.scale)
      ∷ ("source", string c.source)
      ∷ ("cell", string c.cell)
      ∷ ("scenario", string c.scenario)
      ∷ ("metric", string c.metric)
      ∷ ("key", string c.key)
      ∷ ("unit", string c.unit)
      ∷ ("direction", string c.direction)
      ∷ ("isolation", string c.isolation)
      ∷ ("oversubscribed", or_null bool c.oversubscribed)
      ∷ ("warmup", or_null warmup_value c.warmup)
      ∷ ("discardedWarmup", array (items (map float_value c.discarded_warmup)))
      ∷ ("reps", natural c.reps)
      ∷ ("minReps", natural c.min_reps)
      ∷ ("outcome", string c.outcome)
      ∷ ("reason", or_null string c.reason)
      ∷ ("samples", array (items (map float_value c.samples)))
      ∷ ("median", or_null float_value c.median)
      ∷ ("min", or_null float_value c.min)
      ∷ ("max", or_null float_value c.max)
      ∷ ("iqr", or_null float_value c.iqr)
      ∷ ("cov", or_null float_value c.cov)
      ∷ ("ci95", or_null interval_value c.ci95)
      ∷ ("ciHalfWidthPct", or_null float_value c.ci_half_width_pct)
      ∷ ("p95OfSamples", or_null float_value c.p95_of_samples)
      ∷ ("tail", or_null tail_value c.tail)
      ∷ ("timerSaturated", or_null bool c.timer_saturated)
      ∷ ("steadyState", or_null string c.steady_state)
      ∷ ("confidence", string c.confidence)
      ∷ ("lowConfidenceReasons", array (items (map string c.low_confidence_reasons)))
      ∷ ("machineLoad", load_value c.machine_load)
      ∷ ("invariants", invariants_value c.invariants)
      ∷ ("attested", or_null bool c.attested)
      ∷ ("dirty", or_null bool c.dirty)
      ∷ []))

entry_value : InvariantEntry → Value
unfolding entries
entry_value e = object (
    entries (
      ("library", string e.library)
      ∷ ("scale", natural e.scale)
      ∷ ("source", string e.source)
      ∷ ("name", string e.name)
      ∷ ("value", e.value)
      ∷ ("unit", string e.unit)
      ∷ []))

modelled_value : ModelledEntry → Value
unfolding entries float_value
modelled_value e = object (
    entries (
      ("library", string e.library)
      ∷ ("scale", natural e.scale)
      ∷ ("name", string e.name)
      ∷ ("value", float_value e.value)
      ∷ ("unit", string e.unit)
      ∷ ("model", e.model)
      ∷ []))

estimator_value : ReplicateEstimator → Value
unfolding entries float_value
estimator_value e = object (
    entries (
      ("method", string e.method)
      ∷ ("reps", natural e.reps)
      ∷ ("coverage", float_value e.coverage)
      ∷ ("multiplier", float_value e.multiplier)
      ∷ ("droppedMetrics", natural e.dropped_metrics)
      ∷ []))

replicate_value : ReplicateBlock → Value
unfolding entries estimator_value
replicate_value r = object (
    entries (
      ("cell", string r.cell)
      ∷ ("replicateReps", natural r.replicate_reps)
      ∷ ("estimator", or_null estimator_value r.estimator)
      ∷ ("spreadPct", r.spread_pct)
      ∷ ("driftPct", r.drift_pct)
      ∷ ("residualPct", r.residual_pct)
      ∷ []))

unfoldable pub to_value : Document → Value
unfolding entries load_value measurement_value cell_value entry_value modelled_value replicate_value
to_value doc = object (
    entries (
      ("schemaVersion", natural doc.schema_version)
      ∷ ("family", string doc.family)
      ∷ ("runner", string doc.runner)
      ∷ ("profile", string doc.profile)
      ∷ ("startedAt", string doc.started_at)
      ∷ ("finishedAt", or_null string doc.finished_at)
      ∷ ("runId", or_null string doc.run_id)
      ∷ ("startingLoad", or_null load_value doc.starting_load)
      ∷ ("measurement", measurement_value doc.measurement)
      ∷ ("provenance", or_null (λ v. v) doc.provenance)
      ∷ ("cells", array (items (map cell_value doc.cells)))
      ∷ ("invariants", array (items (map entry_value doc.invariants)))
      ∷ ("modelled", array (items (map modelled_value doc.modelled)))
      ∷ ("replicate", or_null replicate_value doc.replicate)
      ∷ ("integrity", or_null (λ v. v) doc.integrity)
      ∷ []))

-- `.ok()`
abbrev pub ok_or_none : {E A : Type 0} → Result E A → Option A
ok_or_none (ok a) = some a
ok_or_none (err e) = none

module _ (crates : Crates) where
  unfoldable pub stamp_run_id : Document → Document
  unfolding to_value run_id
  stamp_run_id doc = record doc { run_id = ok_or_none (run_id crates (to_value doc)) }
