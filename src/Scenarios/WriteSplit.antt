-- ===== src/Scenarios/WriteSplit.antt =====
-- src/storage/scenarios/write_split.rs: a write split into its ingest and its finalize by a sink that
-- keeps the engine's `finish` from the sink below it. The engine of the libviprs crate is any program
-- that calls the sink and reads its answers.
pub mod Finished
use libviprs_bench.Base.{
  ℕ, ◌+◌, ◌%◌, ◌^◌, String, Bool, true, false, not, ◌&&◌, List, [], ◌∷◌, ◌++◌, Option, none, some,
  ◌&◌, show, if◌then◌else◌, ◌==◌, Result, ok, err, map_err,
}
use libviprs_bench.Format.{abs}
use libviprs_bench.Statistics.{Arith, float_ltb, float_leb, is_nan}
use libviprs_bench.Scenarios.{MetricSpec, milliseconds, lower_is_better}

-- 100.0
abbrev hundred : ℕ
hundred = 0x4059000000000000

-- 15.0
abbrev pub reconciliation_allowance_pct : ℕ
reconciliation_allowance_pct = 0x402e000000000000

module _ (arith : Arith) where
  unfoldable pub drift_pct : ℕ → ℕ → ℕ
  drift_pct split_ms combined_ms =
      arith.mul (arith.div (arith.sub split_ms combined_ms) combined_ms) hundred

  unfoldable pub reconciles : ℕ → ℕ → Bool
  unfolding drift_pct is_nan float_leb
  reconciles split_ms combined_ms =
      not (is_nan (drift_pct split_ms combined_ms))
      && float_leb (abs (drift_pct split_ms combined_ms)) reconciliation_allowance_pct

  unfoldable pub finalize_share_pct : ℕ → ℕ → ℕ
  unfolding is_nan float_ltb
  finalize_share_pct ingest_ms finalize_ms =
      let split = arith.add ingest_ms finalize_ms in
      if not (is_nan split) && not (float_ltb 0 split)
      then 0
      else arith.mul (arith.div finalize_ms split) hundred

  -- `fixed` and `signed` are `{:.2}` and `{:+.1}` of a float.
  unfoldable pub reconciliation_is_meaningful :
      (ℕ → String) → (ℕ → String) → ℕ → ℕ → Result String (Unit {0})
  unfolding reconciles drift_pct
  reconciliation_is_meaningful fixed signed ingest_ms combined_ms =
      if not (reconciles ingest_ms combined_ms)
      then ok tt
      else err (
          "an ingest of "
          & fixed ingest_ms
          & " ms on its own is within 15% of the combined row's "
          & fixed combined_ms
          & " ms, a drift of "
          & signed (drift_pct ingest_ms combined_ms)
          & "%, so a split that never measured the finalize at all would reconcile here and this cell cannot tell that failure from a correct split")

-- What a sink is asked: to write a tile, or to finish.
pub data Event : Type 0 where
  write_tile : List ℕ → Event
  finish : Event

-- What a sink answers.
abbrev pub Answer : Type 0
Answer = Result String (Unit {0})

-- A run of the engine: it ends with the tiles produced or an error, or asks the sink that it was
-- given, or the one that `inner_sink` hands it, and goes on by the answer.
pub data Run : Type 0 where
  ends : Result String ℕ → Run
  asks : Event → (Answer → Run) → Run
  asks_inner : Event → (Answer → Run) → Run

-- The calls that the sink below has had, in order, and how often the engine asked for the finish.
pub record DeferFinish : Type 0 where
  pub inner : List Event
  pub asked : ℕ

abbrev pub new_defer : DeferFinish
new_defer = record { inner = []; asked = 0 }

pub record HandWalk : Type 0 where
  pub ingest : ℕ
  pub finalize : ℕ
  pub output : String
  pub tiles_produced : ℕ
  pub ingest_peak_bytes : Option ℕ
  pub ingest_live_bytes : Option ℕ
  pub finalize_peak_bytes : Option ℕ

-- What the clock and the counting allocator read.
pub record Readings : Type 0 where
  pub ingest : ℕ
  pub finalize : ℕ
  pub ingest_peak_bytes : Option ℕ
  pub ingest_live_bytes : Option ℕ
  pub finalize_peak_bytes : Option ℕ

-- `sink` answers by the calls that it has had.
module _ (sink : List Event → Event → Answer) where
  -- `write_tile` and `finish` of `DeferFinish`
  unfoldable pub deferred : Event → DeferFinish → Answer × DeferFinish
  deferred (write_tile tile) d =
      (sink d.inner (write_tile tile), record d { inner = d.inner ++ write_tile tile ∷ [] })
  deferred finish d = (ok tt, record d { asked = (d.asked + 1) % 2 ^ 32 })

  -- A call of what `inner_sink` of `DeferFinish` returns
  unfoldable pub inner_sink : Event → DeferFinish → Answer × DeferFinish
  inner_sink event d = (sink d.inner event, record d { inner = d.inner ++ event ∷ [] })

  -- `run_collect`
  unfoldable pub run_collect : Run → DeferFinish → Result String ℕ × DeferFinish
  unfolding deferred inner_sink
  run_collect (ends result) d = (result, d)
  run_collect (asks event next) d = run_collect (next (deferred event d).0) (deferred event d).1
  run_collect (asks_inner event next) d =
      run_collect (next (inner_sink event d).0) (inner_sink event d).1

  finished : Readings → String → ℕ → List Event → Answer → Result String HandWalk × List Event
  finished readings output tiles_produced events (err e) =
      (err ("the sink does not finish: " & e), events)
  finished readings output tiles_produced events (ok _) = (
    ok (record {
      ingest = readings.ingest;
      finalize = readings.finalize;
      output = output;
      tiles_produced = tiles_produced;
      ingest_peak_bytes = readings.ingest_peak_bytes;
      ingest_live_bytes = readings.ingest_live_bytes;
      finalize_peak_bytes = readings.finalize_peak_bytes;
    }),
    events,
  )

  asked_times : ℕ → String
  asked_times n =
      "the engine asked the sink to finish "
      & show n
      & " times and this split's phase boundary is the one time it does, so the ingest phase is not what it says it is"

  after_run :
      Readings → String → Result String ℕ × DeferFinish → Result String HandWalk × List Event
  unfolding finished asked_times
  after_run readings output (err e, d) = (err ("the run failed: " & e), d.inner)
  after_run readings output (ok tiles_produced, d) =
      if not (d.asked == 1)
      then (err (asked_times d.asked), d.inner)
      else finished readings output tiles_produced (d.inner ++ finish ∷ []) (sink d.inner finish)

  -- The result, and the calls that the sink has had.
  unfoldable pub walk : Readings → String → Run → Result String HandWalk × List Event
  unfolding after_run run_collect
  walk readings output engine = after_run readings output (run_collect engine new_defer)

abbrev pub wall : MetricSpec
wall = record { name = "wall"; unit = milliseconds; direction = lower_is_better }

pub data Phase : Type 0 where
  ingest_phase finalize_phase : Phase

unfoldable pub phase_name : Phase → String
phase_name ingest_phase = "generate_ingest"
phase_name finalize_phase = "generate_finalize"

abbrev pub write_phases : List String
write_phases = "generate_ingest" ∷ "generate_finalize" ∷ []

-- `as_millis` is `as_secs_f64() * 1000.0`.
unfoldable pub wall_ms : (ℕ → ℕ) → Phase → HandWalk → ℕ
wall_ms as_millis ingest_phase walked = as_millis walked.ingest
wall_ms as_millis finalize_phase walked = as_millis walked.finalize

unfoldable pub heap_peak : Phase → HandWalk → Option ℕ
heap_peak ingest_phase walked = walked.ingest_peak_bytes
heap_peak finalize_phase walked = walked.finalize_peak_bytes
