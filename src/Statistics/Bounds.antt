-- ===== src/Statistics/Bounds.antt =====
-- src/storage/stats.rs: a summary against the samples it is of.
use libviprs_bench.Base.{
  ℕ, zero, suc, true, false, none, some, List, [], ◌∷◌, ◌≡◌, refl, ◌⊎◌, inl, inr, arith, ap, ◌∙◌,
  All, any, any-sort, length, sort, sort-IsOrdered, sort-ordered, All-of_sort, length-sort,
  IsOrdered, ltb, if◌then◌else◌, sym, subst, ◌≤◌, ◌&&◌, not, ◌==◌, Bool-cases,
}
use libviprs_bench.Statistics.{
  Arith, float_leb, is_nan, is_comparable, sorted, last, tail, tail_of, Tail, TailKind, p99, max,
  p99_min_samples, Summary, summary, summary_of, summarise, Splitmix, resample, resampled_medians,
  bootstrap_median_ci, bootstrap_resamples, percentile_sorted, half, interval,
}
use libviprs_bench.Statistics.Random.{resample_lem}

float_leb_refl : (a : ℕ) → float_leb a a ≡ true
unfolding float_leb
float_leb_refl a = ground arith

float_leb_total : (a b : ℕ) → float_leb a b ≡ false → float_leb b a ≡ true
unfolding float_leb
float_leb_total a b h = ground arith

float_leb_trans : (a b c : ℕ) → float_leb a b ≡ true → float_leb b c ≡ true → float_leb a c ≡ true
unfolding float_leb
float_leb_trans a b c h k = ground arith

-- The samples in their order.
abbrev in_order : List ℕ → List ℕ
in_order samples = sort float_leb samples

in_order-IsOrdered : (samples : List ℕ) → IsOrdered float_leb (in_order samples)
in_order-IsOrdered samples = sort-IsOrdered float_leb float_leb_total float_leb_trans samples

sorted-some :
    (samples : List ℕ) → is_comparable samples ≡ true → sorted samples ≡ some (in_order samples)
unfolding sorted
sorted-some samples h = rw h refl

sorted-none : (samples : List ℕ) → is_comparable samples ≡ false → sorted samples ≡ none
unfolding sorted
sorted-none samples h = rw h refl

comparable-in_order : (samples : List ℕ) → is_comparable (in_order samples) ≡ is_comparable samples
comparable-in_order samples =
    rw (length-sort float_leb samples, any-sort float_leb is_nan samples) refl

-- The sample is no smaller, or no greater.
abbrev pub IsAtLeast : ℕ → ℕ → Type 0
IsAtLeast lo v = float_leb lo v ≡ true

abbrev pub IsAtMost : ℕ → ℕ → Type 0
IsAtMost hi v = float_leb v hi ≡ true

last-IsAtMost :
    (v : ℕ) (rest : List ℕ)
    → IsOrdered float_leb (v ∷ rest)
    → (float_leb v (last v rest) ≡ true) × All (IsAtMost (last v rest)) rest
unfolding last
last-IsAtMost v [] h = (float_leb_refl v, tt)
last-IsAtMost v (w ∷ rest) ((p, _), h) =
    let (q, qs) = last-IsAtMost w rest h in (float_leb_trans v w (last w rest) p q, (q, qs))

-- The kind of the tail that so many samples have.
abbrev pub kind_for : ℕ → TailKind
kind_for n = if ltb n p99_min_samples then max else p99

-- A summary that fits its samples.
pub record Summarises (samples : List ℕ) (s : Summary) : Type 0 where
  pub counted : s.n ≡ length samples
  pub least : All (IsAtLeast s.min) samples
  pub greatest : All (IsAtMost s.max) samples
  pub tail_kind : s.tail.kind ≡ kind_for (length samples)
  -- below a hundred samples it is the greatest
  pub tail_value : (ltb (length samples) p99_min_samples && not (s.tail.value == s.max)) ≡ false

-- No value is NaN.
abbrev IsNumber : ℕ → Type 0
IsNumber v = is_nan v ≡ false

All-IsNumber : (samples : List ℕ) → any is_nan samples ≡ false → All IsNumber samples
All-IsNumber [] h = tt
All-IsNumber (v ∷ samples) h = (ground arith, All-IsNumber samples (ground arith))

any-IsNumber : (samples : List ℕ) → All IsNumber samples → any is_nan samples ≡ false
any-IsNumber [] h = refl
any-IsNumber (v ∷ samples) (p, h) = rw (p, any-IsNumber samples h) refl

numbers-comparable : (samples : List ℕ) → All IsNumber samples → is_comparable samples ≡ true
numbers-comparable samples h = rw (any-IsNumber samples h) (ground arith)

module _ (ar : Arith) where
  -- Every resample of numbers can be sorted.
  resampled_medians-some :
      (samples : List ℕ) (rounds : ℕ) (rng : Splitmix)
      → 1 ≤ length samples
      → All IsNumber samples
      → (medians : List ℕ) × (resampled_medians ar samples (length samples) rounds rng
          ≡ some medians)
  unfolding resampled_medians
  resampled_medians-some samples zero rng h k = ([], refl)
  resampled_medians-some samples (suc rounds) rng h k =
      let (drawn, after) = resample ar samples (length samples) (length samples) rng in
      let numbers = (resample_lem ar IsNumber samples (length samples) rng h k).1 in
      let (rest, e) = resampled_medians-some samples rounds after h k in
      (
        percentile_sorted ar (in_order drawn) half ∷ rest,
        rw (sorted-some drawn (numbers-comparable drawn numbers), e) refl,
      )

  -- The bootstrap of these samples meets a median that is NaN.
  abbrev pub HasNanMedian : List ℕ → ℕ → Type 0
  HasNanMedian samples seed =
      (medians : List ℕ) × (resampled_medians ar (sort float_leb samples) (length samples)
          bootstrap_resamples seed
        ≡ some medians)
      × (any is_nan medians ≡ true)

  -- Of values that can be sorted and are in order, the bootstrap has an interval, or its medians
  -- cannot be sorted.
  bootstrap-cases :
      (s : List ℕ) (seed : ℕ)
      → is_comparable s ≡ true
      → ((ci : ℕ × ℕ) × (bootstrap_median_ci ar s seed ≡ some ci))
        ⊎ ((bootstrap_median_ci ar s seed ≡ none)
            × (medians : List ℕ) × (resampled_medians ar s (length s) bootstrap_resamples seed
                ≡ some medians)
            × (any is_nan medians ≡ true))
  unfolding bootstrap_median_ci
  bootstrap-cases [] seed h = inl (_, refl)
  bootstrap-cases (v ∷ []) seed h = inl (_, refl)
  bootstrap-cases (v ∷ w ∷ rest) seed h =
      let s : List ℕ = v ∷ w ∷ rest in
      let numbers : All IsNumber s = All-IsNumber s (ground (arith, h)) in
      let (medians, e) = resampled_medians-some s bootstrap_resamples seed (omega arith) numbers in
      elim (Bool-cases (is_comparable medians)) [
        | inl fine ↦ inl (interval ar (in_order medians), rw (e, sorted-some medians fine) refl)
        | inr bad ↦ inr (rw (e, sorted-none medians bad) refl, medians, e, ground (arith, bad))
      ]

  tail-in_order :
      (v : ℕ) (rest : List ℕ)
      → is_comparable (v ∷ rest) ≡ true
      → IsOrdered float_leb (v ∷ rest)
      → tail ar (v ∷ rest) ≡ some (tail_of ar (v ∷ rest))
  unfolding tail
  tail-in_order v rest h o = rw (sorted-some (v ∷ rest) h, sort-ordered float_leb (v ∷ rest) o) refl

  -- The tail of these values.
  abbrev tail_for : ℕ → List ℕ → Tail
  tail_for v rest =
      if ltb (length (v ∷ rest)) p99_min_samples
      then record { kind = max; value = last v rest }
      else record { kind = p99; value = percentile_sorted ar (v ∷ rest) 0x3fefae147ae147ae }

  summary-fits :
      (v : ℕ) (rest : List ℕ) (ci : ℕ × ℕ)
      → IsOrdered float_leb (v ∷ rest)
      → Summarises (v ∷ rest) (summary ar v rest ci (tail_for v rest))
  unfolding summary
  summary-fits v rest ci (p, h) =
      let (q, qs) = last-IsAtMost v rest (p, h) in
      record {
        counted = refl;
        least = (float_leb_refl v, p);
        greatest = (q, qs);
        tail_kind = ground arith;
        tail_value = ground arith;
      }

  -- What summarising values in order gives.
  abbrev Summarised : List ℕ → ℕ → Type 0
  Summarised s seed =
      ((t : Summary) × (summary_of ar s seed ≡ some (some t)) × Summarises s t)
      ⊎ ((summary_of ar s seed ≡ none)
          × (medians : List ℕ) × (resampled_medians ar s (length s) bootstrap_resamples seed
              ≡ some medians)
          × (any is_nan medians ≡ true))

  summary_of-Summarised :
      (s : List ℕ) (seed : ℕ)
      → 1 ≤ length s
      → is_comparable s ≡ true
      → IsOrdered float_leb s
      → Summarised s seed
  unfolding summary_of tail_of
  summary_of-Summarised [] seed h c o = absurd (omega arith)
  summary_of-Summarised (v ∷ rest) seed h c o = elim (bootstrap-cases (v ∷ rest) seed c) [
    | inl (ci, e) ↦ inl (
      summary ar v rest ci (tail_for v rest),
      rw (e, tail-in_order v rest c o) refl,
      summary-fits v rest ci o,
    )
    | inr (e, medians, made, bad) ↦ inr (rw e refl, medians, made, bad)
  ]

  Summarises-in_order :
      (samples : List ℕ) (s : Summary) → Summarises (in_order samples) s → Summarises samples s
  Summarises-in_order samples s fits = record {
    counted = fits.counted ∙ length-sort float_leb samples;
    least = All-of_sort float_leb (IsAtLeast s.min) samples fits.least;
    greatest = All-of_sort float_leb (IsAtMost s.max) samples fits.greatest;
    tail_kind = fits.tail_kind ∙ ap kind_for (length-sort float_leb samples);
    tail_value =
        subst (λ n. (ltb n p99_min_samples && not (s.tail.value == s.max)) ≡ false)
          (length-sort float_leb samples) fits.tail_value;
  }

  -- Of samples that are not empty, whatever the arithmetic, one of these holds. There is a summary,
  -- and of several samples none is NaN: the summary counts them, no sample is below its min or above
  -- its max, and its tail is a p99 from a hundred samples on and the max below. Or the code panics: at
  -- a NaN among several samples, or at a median of the bootstrap that is NaN.
  pub summarise_lem :
      (samples : List ℕ) (seed : ℕ)
      → 1 ≤ length samples
      → ((is_comparable samples ≡ true)
          × (s : Summary) × (summarise ar samples seed ≡ some (some s))
          × Summarises samples s)
        ⊎ ((is_comparable samples ≡ true)
            × (summarise ar samples seed ≡ none)
            × HasNanMedian samples seed)
        ⊎ ((is_comparable samples ≡ false) × (summarise ar samples seed ≡ none))
  unfolding summarise
  summarise_lem samples seed h = elim (Bool-cases (is_comparable samples)) [
    | inr bad ↦ inr (inr (bad, rw (sorted-none samples bad) refl))
    | inl fine ↦
        elim (summary_of-Summarised (in_order samples) seed (rw (length-sort float_leb samples) h)
          (comparable-in_order samples ∙ fine) (in_order-IsOrdered samples)) [
            | inl (s, e, fits) ↦
                inl (fine, s, rw (sorted-some samples fine) e, Summarises-in_order samples s fits)
            | inr (e, medians, made, bad) ↦ inr (
                inl (
                  fine,
                  rw (sorted-some samples fine) e,
                  (
                    medians,
                    ap (λ n. resampled_medians ar (in_order samples) n bootstrap_resamples seed)
                          (sym (length-sort float_leb samples))
                        ∙ made,
                    bad,
                  ),
                ))
          ]
  ]
