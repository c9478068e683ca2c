-- ===== src/Repetitions.antt =====
-- src/storage/mod.rs, the repetitions of a scenario, each run by a child of its own: `merge` folds one
-- child's run into the run so far, and `agreed` keeps the invariants that every repetition saw. The
-- invariants are those of src/storage/scenarios/mod.rs; a sample is the 64 bits of an f64.
pub mod Merged
pub mod Agreed
use libviprs_bench.Base.{
  ℕ, ◌==◌, Bool, true, false, not, ◌&&◌, String, List, [], ◌∷◌, ◌++◌, Option, none, some, str_eq,
  if◌then◌else◌, ◌&◌, join, leb,
}
use libviprs_bench.Integrity.{is_empty}

pub record Invariants : Type 0 where
  pub output_bytes : Option ℕ
  pub allocated_bytes : Option ℕ
  pub filesystem_entries : Option ℕ
  pub directories : Option ℕ
  pub tiles_produced : Option ℕ
  pub artefact_digest : Option String
  pub root_entries : Option ℕ
  pub leaves : Option ℕ
  pub requests : Option ℕ
  pub request_bytes : Option ℕ

pub record RepFacts : Type 0 where
  pub invariants : Invariants
  pub scratch : Option String

pub record WireSeries : Type 0 where
  pub metric : String
  pub unit : String
  pub direction : String
  pub samples : List ℕ

pub record WireRun : Type 0 where
  pub outcome : String
  pub reason : Option String
  pub series : List WireSeries
  pub reps : List RepFacts
  pub discarded_warmup : List ℕ
  pub peak_rss_bytes : Option ℕ
  pub heap_peak_bytes : Option ℕ

abbrev pub option_eq : {A : Type 0} → (A → A → Bool) → Option A → Option A → Bool
option_eq eq none none = true
option_eq eq none (some b) = false
option_eq eq (some a) none = false
option_eq eq (some a) (some b) = eq a b

abbrev pub nat_eq : ℕ → ℕ → Bool
nat_eq m n = m == n

-- `reps.first().map(…).flatten()`
abbrev pub first : {A : Type 0} → (Invariants → Option A) → List RepFacts → Option A
first field [] = none
first field (r ∷ reps) = field r.invariants

abbrev pub all_equal :
    {A : Type 0} → (A → A → Bool) → (Invariants → Option A) → Option A → List RepFacts → Bool
all_equal eq field a [] = true
all_equal eq field a (r ∷ reps) = option_eq eq (field r.invariants) a && all_equal eq field a reps

-- `agree!`: the value kept, and what is said of the field.
unfoldable pub agree :
    {A : Type 0}
    → (A → A → Bool)
    → (Invariants → Option A)
    → String
    → List RepFacts
    → Option A × List String
agree eq field name reps =
    if all_equal eq field (first field reps) reps
    then (first field reps, [])
    else (none, (name & " differs between reps") ∷ [])

unfoldable pub agreed : List RepFacts → Invariants × List String
unfolding agree
agreed reps =
    let (output_bytes, a) = agree nat_eq (λ i. i.output_bytes) "output_bytes" reps in
    let (allocated_bytes, b) = agree nat_eq (λ i. i.allocated_bytes) "allocated_bytes" reps in
    let (filesystem_entries, c) =
      agree nat_eq (λ i. i.filesystem_entries) "filesystem_entries" reps in
    let (directories, d) = agree nat_eq (λ i. i.directories) "directories" reps in
    let (tiles_produced, e) = agree nat_eq (λ i. i.tiles_produced) "tiles_produced" reps in
    let (artefact_digest, f) = agree str_eq (λ i. i.artefact_digest) "artefact_digest" reps in
    let (root_entries, g) = agree nat_eq (λ i. i.root_entries) "root_entries" reps in
    let (leaves, h) = agree nat_eq (λ i. i.leaves) "leaves" reps in
    let (requests, k) = agree nat_eq (λ i. i.requests) "requests" reps in
    let (request_bytes, l) = agree nat_eq (λ i. i.request_bytes) "request_bytes" reps in
    (
      record {
        output_bytes = output_bytes;
        allocated_bytes = allocated_bytes;
        filesystem_entries = filesystem_entries;
        directories = directories;
        tiles_produced = tiles_produced;
        artefact_digest = artefact_digest;
        root_entries = root_entries;
        leaves = leaves;
        requests = requests;
        request_bytes = request_bytes;
      },
      a ++ b ++ c ++ d ++ e ++ f ++ g ++ h ++ k ++ l,
    )

-- The first series of this metric takes the samples; `none` where there is none.
unfoldable pub extend : WireSeries → List WireSeries → Option (List WireSeries)
extend one [] = none
extend one (s ∷ series) =
    let rest = extend one series in
    if str_eq s.metric one.metric
    then some (record s { samples = s.samples ++ one.samples } ∷ series)
    else elim rest [ none ↦ none | some extended ↦ some (s ∷ extended) ]

abbrev pub extend_or_push : WireSeries → List WireSeries → List WireSeries
extend_or_push one series = elim (extend one series) [
  | none ↦ series ++ one ∷ []
  | some extended ↦ extended
]

abbrev pub unmatched_metric : WireSeries → List WireSeries → List String
unmatched_metric one series = elim (extend one series) [
  | none ↦ one.metric ∷ []
  | some extended ↦ []
]

-- The loop over the child's series: the series so far, and the metrics that were new.
unfoldable pub merge_series : List WireSeries → List WireSeries → List WireSeries × List String
unfolding extend
merge_series acc [] = (acc, [])
merge_series acc (one ∷ ones) =
    let (merged, unmatched) = merge_series (extend_or_push one acc) ones in
    (merged, unmatched_metric one acc ++ unmatched)

abbrev note_reason : Option String → String → Option String
note_reason none note = some note
note_reason (some existing) note = some (existing & "; " & note)

abbrev merge_reason : Option String → List String → Option String
merge_reason reason [] = reason
merge_reason reason (metric ∷ unmatched) = note_reason reason (
    "repetitions disagreed about which series they publish; "
    & join ", " (metric ∷ unmatched)
    & " appeared partway through")

abbrev pub larger : Option ℕ → Option ℕ → Option ℕ
larger none b = b
larger (some a) none = some a
larger (some a) (some b) = some (if leb a b then b else a)

unfoldable pub merge_into : WireRun → WireRun → WireRun
unfolding merge_series
merge_into acc one =
    let (series, unmatched) = merge_series acc.series one.series in
    record {
      outcome = if str_eq one.outcome "ok" then acc.outcome else one.outcome;
      reason = if str_eq one.outcome "ok" then merge_reason acc.reason unmatched else one.reason;
      series = series;
      reps = acc.reps ++ one.reps;
      discarded_warmup = acc.discarded_warmup ++ one.discarded_warmup;
      peak_rss_bytes = larger acc.peak_rss_bytes one.peak_rss_bytes;
      heap_peak_bytes = larger acc.heap_peak_bytes one.heap_peak_bytes;
    }

unfoldable pub merge : Option WireRun → WireRun → WireRun
unfolding merge_into
merge none one = one
merge (some acc) one = merge_into acc one
