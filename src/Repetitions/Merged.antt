-- ===== src/Repetitions/Merged.antt =====
-- The samples of every metric after a merge.
use libviprs_bench.Base.{
  ℕ, Bool, true, false, String, List, [], ◌∷◌, ◌++◌, ◌≡◌, refl, ap, ◌∙◌, sym, arith, some, str_eq,
  str_eq_iff, if◌then◌else◌, Bool-cases, inl, inr,
}
use mathlib.Core.List.{append_assoc, append-nil}
use libviprs_bench.Repetitions.{WireSeries, WireRun, extend, extend_or_push, merge_series, merge}

-- The samples of the first series of this metric.
unfoldable pub samples_of : String → List WireSeries → List ℕ
samples_of metric [] = []
samples_of metric (s ∷ series) =
    if str_eq s.metric metric then s.samples else samples_of metric series

-- The samples of every series of this metric, in order.
unfoldable pub all_samples : String → List WireSeries → List ℕ
all_samples metric [] = []
all_samples metric (s ∷ series) =
    let rest = all_samples metric series in
    if str_eq s.metric metric then s.samples ++ rest else rest

extend_or_push-other :
    (one s : WireSeries) (series : List WireSeries)
    → str_eq s.metric one.metric ≡ false
    → extend_or_push one (s ∷ series) ≡ s ∷ extend_or_push one series
unfolding extend
extend_or_push-other one s series h = ground (arith, h)

extend_or_push-same :
    (one s : WireSeries) (series : List WireSeries)
    → str_eq s.metric one.metric ≡ true
    → extend_or_push one (s ∷ series) ≡ record s { samples = s.samples ++ one.samples } ∷ series
unfolding extend
extend_or_push-same one s series h = ground (arith, h)

-- The samples of a metric once a series of the metric `name` brought `more`.
abbrev grown : String → String → List ℕ → List ℕ → List ℕ
grown name metric before more = if str_eq name metric then before ++ more else before

samples-grown :
    (metric : String) (one s : WireSeries) (series : List WireSeries)
    → str_eq s.metric one.metric ≡ true
    → samples_of metric (record s { samples = s.samples ++ one.samples } ∷ series)
      ≡ grown one.metric metric (samples_of metric (s ∷ series)) one.samples
unfolding samples_of
samples-grown metric one s series h = rw ((str_eq_iff s.metric one.metric).0 h) (ground arith)

samples-kept :
    (metric : String) (one s : WireSeries) (before after : List ℕ)
    → str_eq s.metric one.metric ≡ false
    → after ≡ grown one.metric metric before one.samples
    → (if str_eq s.metric metric then s.samples else after)
      ≡ grown one.metric metric (if str_eq s.metric metric then s.samples else before) one.samples
samples-kept metric one s before after h e = ground (
  arith,
  str_eq_iff s.metric metric,
  str_eq_iff one.metric metric,
  str_eq_iff s.metric one.metric,
)

samples-extend_or_push :
    (metric : String) (one : WireSeries) (series : List WireSeries)
    → samples_of metric (extend_or_push one series)
      ≡ grown one.metric metric (samples_of metric series) one.samples
unfolding samples_of extend
samples-extend_or_push metric one [] = refl
samples-extend_or_push metric one (s ∷ series) = elim (Bool-cases (str_eq s.metric one.metric)) [
  | inl same ↦
      ap (samples_of metric) (extend_or_push-same one s series same)
      ∙ samples-grown metric one s series same
  | inr other ↦
      ap (samples_of metric) (extend_or_push-other one s series other)
      ∙ samples-kept metric one s (samples_of metric series) _ other
          (samples-extend_or_push metric one series)
]

samples-merge_series :
    (metric : String) (acc ones : List WireSeries)
    → samples_of metric (merge_series acc ones).0 ≡ samples_of metric acc ++ all_samples metric ones
unfolding merge_series all_samples
samples-merge_series metric acc [] = sym (append-nil (samples_of metric acc))
samples-merge_series metric acc (one ∷ ones) =
    samples-merge_series metric (extend_or_push one acc) ones
    ∙ ap (λ xs. xs ++ all_samples metric ones) (samples-extend_or_push metric one acc)
    ∙ regroup (str_eq one.metric metric)
  where
    regroup :
        (b : Bool)
        → (if b then samples_of metric acc ++ one.samples else samples_of metric acc)
            ++ all_samples metric ones
          ≡ samples_of metric acc
            ++ (if b then one.samples ++ all_samples metric ones else all_samples metric ones)
    regroup true = append_assoc (samples_of metric acc) one.samples (all_samples metric ones)
    regroup false = refl

-- Where the samples of a metric are those of its first series, a merge gives every metric the
-- samples that it had, and after them all that the child took of it, whatever the order of the
-- child's series and whichever of them are new.
pub samples-merge :
    (metric : String) (acc one : WireRun)
    → samples_of metric (merge (some acc) one).series
      ≡ samples_of metric acc.series ++ all_samples metric one.series
unfolding merge
samples-merge metric acc one = samples-merge_series metric acc.series one.series
