-- ===== src/StorageDocument/Cell/Confidence.antt =====
-- src/storage/document.rs: when a cell's confidence is high.
use libviprs_bench.Base.{
  String, Bool, true, false, not, ◌&&◌, List, [], ◌∷◌, ◌++◌, Option, none, some, ◌≡◌, refl, arith,
  if◌then◌else◌, leb, ℕ, ◌⊎◌, inl, inr,
}
use libviprs_bench.Integrity.{is_empty}
use libviprs_bench.Statistics.{Arith, Summary, summarise, float_ltb, cov_low_confidence}
use libviprs_bench.StorageDocument.{seed}
use libviprs_bench.StorageDocument.Cell.{
  CellReport, DocumentCell, few_samples, not_quiet, saturated_reason, wide_spread, saturation,
  low_confidence, cell_of, from_report, cov_of, sample_count,
}

-- The coefficient of variation is known and too large.
abbrev pub is_wide : Option ℕ → Bool
is_wide none = false
is_wide (some cov) = float_ltb cov_low_confidence cov

abbrev pub holds : Option Bool → Bool
holds none = false
holds (some b) = b

-- Enough samples, no wide spread, a machine known to be quiet and a timer not known to be saturated.
abbrev pub is_trusted : Arith → CellReport → Option Summary → Bool
is_trusted ar report summary =
    leb report.min_reps (sample_count report)
    && (not (is_wide (cov_of summary))
        && (holds report.machine_load.quiet
            && not (holds (saturation ar summary report.timer report.metric.unit))))

is_empty-append : {A : Type 0} (xs ys : List A) → is_empty (xs ++ ys) ≡ (is_empty xs && is_empty ys)
is_empty-append [] ys = refl
is_empty-append (x ∷ xs) ys = refl

few_samples_none :
    (report : CellReport)
    → is_empty (few_samples report) ≡ leb report.min_reps (sample_count report)
unfolding few_samples
few_samples_none report = ground arith

not_quiet_none : (quiet : Option Bool) → is_empty (not_quiet quiet) ≡ holds quiet
unfolding not_quiet
not_quiet_none none = refl
not_quiet_none (some true) = refl
not_quiet_none (some false) = refl

saturated_none : (o : Option Bool) → is_empty (saturated_reason o) ≡ not (holds o)
unfolding saturated_reason
saturated_none none = refl
saturated_none (some true) = refl
saturated_none (some false) = refl

module _ (ar : Arith) (fixed : ℕ → String) where
  wide_spread_none : (cov : Option ℕ) → is_empty (wide_spread ar fixed cov) ≡ not (is_wide cov)
  unfolding wide_spread
  wide_spread_none none = refl
  wide_spread_none (some cov) = ground arith

  low_confidence_none :
      (report : CellReport) (summary : Option Summary)
      → is_empty (low_confidence ar fixed report summary) ≡ is_trusted ar report summary
  unfolding low_confidence
  low_confidence_none report summary =
      simp (is_empty-append, few_samples_none, wide_spread_none, not_quiet_none, saturated_none)
        refl

  -- The cell of a summary.
  abbrev Rated : CellReport → Option Summary → DocumentCell → Type 0
  Rated report summary cell =
      (cell.confidence ≡ (if is_trusted ar report summary then "high" else "low"))
      × (is_empty cell.low_confidence_reasons ≡ is_trusted ar report summary)

  -- The report has a rated cell, or panics with its summary.
  abbrev Rates : CellReport → Type 0
  Rates report =
      ((summary : Option Summary) × (cell : DocumentCell) × (summarise ar report.samples seed
          ≡ some summary)
        × (from_report ar fixed report ≡ some cell)
        × (cell.confidence ≡ (if is_trusted ar report summary then "high" else "low"))
        × (is_empty cell.low_confidence_reasons ≡ is_trusted ar report summary))
      ⊎ ((summarise ar report.samples seed ≡ none) × (from_report ar fixed report ≡ none))

  cell_of-Rated :
      (report : CellReport) (summary : Option Summary)
      → Rated report summary
          (cell_of ar fixed report summary (low_confidence ar fixed report summary))
  unfolding cell_of
  cell_of-Rated report summary = rw low_confidence_none (refl, refl)

  Rates-cell_of :
      (report : CellReport) (outcome : Option (Option Summary))
      → summarise ar report.samples seed ≡ outcome
      → Rates report
  unfolding from_report
  Rates-cell_of report none h = inr (h, rw h refl)
  Rates-cell_of report (some summary) h =
      let (rated, reasons) = cell_of-Rated report summary in
      inl (
        summary,
        cell_of ar fixed report summary (low_confidence ar fixed report summary),
        h,
        rw h refl,
        rated,
        reasons,
      )

  -- A report has a cell, or summarising its samples panics and so does the report. The cell's
  -- confidence is high exactly if the report has its least number of samples, the coefficient of
  -- variation of their summary is not above 0.15, the machine was quiet, and the timer did not
  -- saturate; else it is low. The reasons are none in the first case only.
  pub confidence-from_report :
      (report : CellReport)
      → ((summary : Option Summary) × (cell : DocumentCell) × (summarise ar report.samples seed
            ≡ some summary)
          × (from_report ar fixed report ≡ some cell)
          × (cell.confidence ≡ (if is_trusted ar report summary then "high" else "low"))
          × (is_empty cell.low_confidence_reasons ≡ is_trusted ar report summary))
        ⊎ ((summarise ar report.samples seed ≡ none) × (from_report ar fixed report ≡ none))
  confidence-from_report report = Rates-cell_of report (summarise ar report.samples seed) refl
