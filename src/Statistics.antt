-- ===== src/Statistics.antt =====
-- src/storage/stats.rs: the summary of a cell's samples. A float is its 64 bits; its order is
-- defined here, and its arithmetic is a value of `Arith`. A function whose sorts
-- may panic gives `none` for the panic.
pub mod Bounds
pub mod Random
use Prim.Native.Nat.{bit_xor}
use libviprs_bench.Base.{
  ℕ, zero, suc, ◌+◌, ◌-◌, ◌*◌, ◌/◌, ◌%◌, ◌^◌, String, Bool, true, false, not, ◌&&◌, ◌≡◌, refl, List,
  [], ◌∷◌, map, Option, none, some, length, get_or, sort, if◌then◌else◌, ltb, leb, ◌==◌, any,
}
use libviprs_bench.Json.{◌>>?◌}
use libviprs_bench.Format.{abs, is_finite}

-- The arithmetic of `f64`, which the machine has, on bits.
pub record Arith : Type 0 where
  pub add : ℕ → ℕ → ℕ
  pub sub : ℕ → ℕ → ℕ
  pub mul : ℕ → ℕ → ℕ
  pub div : ℕ → ℕ → ℕ
  pub sqrt : ℕ → ℕ
  pub square : ℕ → ℕ
  pub sum : List ℕ → ℕ
  -- `n as f64`, `v.floor() as usize` and `v.ceil() as usize`
  pub of_nat : ℕ → ℕ
  pub floor : ℕ → ℕ
  pub ceil : ℕ → ℕ

abbrev nan : ℕ
nan = 0x7ff8000000000000

abbrev pub one : ℕ
one = 0x3ff0000000000000

abbrev two : ℕ
two = 0x4000000000000000

abbrev hundred : ℕ
hundred = 0x4059000000000000

abbrev half : ℕ
half = 0x3fe0000000000000

abbrev epsilon : ℕ
epsilon = 0x3cb0000000000000

abbrev pub p99_min_samples : ℕ
p99_min_samples = 100

-- 0.15
abbrev pub cov_low_confidence : ℕ
cov_low_confidence = 0x3fc3333333333333

abbrev pub bootstrap_resamples : ℕ
bootstrap_resamples = 2000

-- 0.95
abbrev pub bootstrap_level : ℕ
bootstrap_level = 0x3fee666666666666

abbrev pub min_ticks_per_sample : ℕ
min_ticks_per_sample = hundred

-- 1e-6
abbrev canonical_floor : ℕ
canonical_floor = 0x3eb0c6f7a0b5ed8d

unfoldable pub is_nan : ℕ → Bool
is_nan v = ltb 0x7ff0000000000000 (abs v)

-- The place of a float that is no NaN in the order of floats: both zeros have the same.
place : ℕ → ℕ
place v = if leb (2 ^ 63) v then 2 ^ 63 - abs v else 2 ^ 63 + abs v

-- `a < b`
unfoldable pub float_ltb : ℕ → ℕ → Bool
unfolding is_nan place
float_ltb a b = not (is_nan a) && not (is_nan b) && ltb (place a) (place b)

-- `a.partial_cmp(b)` is no greater, for floats that are no NaN
unfoldable pub float_leb : ℕ → ℕ → Bool
unfolding place
float_leb a b = leb (place a) (place b)

float_test :
    (float_ltb 0x8000000000000000 0 ≡ false)
    × (float_leb 0 0x8000000000000000 ≡ true)
    × (float_ltb 0xbff0000000000000 0xbfe0000000000000 ≡ true)
    × (float_ltb 0x3fe0000000000000 0x3ff0000000000000 ≡ true)
    × (float_ltb nan one ≡ false)
unfolding float_ltb float_leb
float_test = (refl, refl, refl, refl, refl)

abbrev u64 : ℕ
u64 = 0x10000000000000000

-- A generator is its state.
abbrev pub Splitmix : Type 0
Splitmix = ℕ

mixed : ℕ → ℕ
mixed s =
    let y = bit_xor s (s / 2 ^ 30) * 0xbf58476d1ce4e5b9 % u64 in
    let z = bit_xor y (y / 2 ^ 27) * 0x94d049bb133111eb % u64 in bit_xor z (z / 2 ^ 31)

-- The number, and the generator after it.
unfoldable pub next_u64 : Splitmix → ℕ × Splitmix
unfolding mixed
next_u64 rng = let s = (rng + 0x9e3779b97f4a7c15) % u64 in (mixed s, s)

unfoldable pub below : Splitmix → ℕ → ℕ × Splitmix
unfolding next_u64
below rng zero = (0, rng)
below rng (suc n) = let (value, after) = next_u64 rng in (value % suc n, after)

pub data TailKind : Type 0 where
  p99 : TailKind
  max : TailKind

unfoldable pub tail_name : TailKind → String
tail_name p99 = "p99"
tail_name max = "max"

pub record Tail : Type 0 where
  pub kind : TailKind
  pub value : ℕ

pub record Summary : Type 0 where
  pub n : ℕ
  pub median : ℕ
  pub min : ℕ
  pub max : ℕ
  pub iqr : ℕ
  pub cov : Option ℕ
  pub ci95 : ℕ × ℕ
  pub ci_half_width_pct : Option ℕ
  pub p95_of_samples : ℕ
  pub tail : Tail

pub record TimerProbe : Type 0 where
  pub tick_ns : ℕ
  pub call_ns : ℕ

-- A sort of several values compares each of them, and `partial_cmp` of a NaN is none.
abbrev pub is_comparable : List ℕ → Bool
is_comparable samples = not (ltb 1 (length samples) && any is_nan samples)

unfoldable pub sorted : List ℕ → Option (List ℕ)
unfolding sort float_leb
sorted samples = if is_comparable samples then some (sort float_leb samples) else none

-- `*sorted.last()`, for a list that is not empty
unfoldable pub last : ℕ → List ℕ → ℕ
last v [] = v
last v (w ∷ rest) = last w rest

floor_derived : ℕ → ℕ
floor_derived value = if is_finite value && float_ltb (abs value) canonical_floor then 0 else value

module _ (arith : Arith) where
  -- The code's indices are in range; a default stands where the list would be too short.
  between : List ℕ → ℕ → ℕ
  between sorted rank =
      let lo = arith.floor rank in
      let hi = arith.ceil rank in
      let frac = arith.sub rank (arith.of_nat lo) in
      arith.add (arith.mul (get_or sorted lo nan) (arith.sub one frac))
        (arith.mul (get_or sorted hi nan) frac)

  unfoldable pub percentile_sorted : List ℕ → ℕ → ℕ
  unfolding between
  percentile_sorted [] p = nan
  percentile_sorted (v ∷ []) p = v
  percentile_sorted (v ∷ w ∷ rest) p =
      between (v ∷ w ∷ rest) (arith.mul p (arith.of_nat (length (w ∷ rest))))

  tail_of : List ℕ → Option Tail
  unfolding percentile_sorted last
  tail_of [] = none
  tail_of (v ∷ rest) = some (
      if ltb (length (v ∷ rest)) p99_min_samples
      then record { kind = max; value = last v rest }
      else record { kind = p99; value = percentile_sorted (v ∷ rest) 0x3fefae147ae147ae })

  unfoldable pub tail : List ℕ → Option (Option Tail)
  unfolding tail_of sorted
  tail samples = sorted samples >>? λ s. some (tail_of s)

  percentile_of : List ℕ → ℕ → Option ℕ
  unfolding percentile_sorted
  percentile_of [] p = none
  percentile_of (v ∷ rest) p = some (percentile_sorted (v ∷ rest) p)

  unfoldable pub percentile : List ℕ → ℕ → Option (Option ℕ)
  unfolding percentile_of sorted
  percentile samples p = sorted samples >>? λ s. some (percentile_of s p)

  unfoldable pub median : List ℕ → Option (Option ℕ)
  unfolding percentile
  median samples = percentile samples half

  -- One resample: `slots` draws from the samples, of which there are `n`.
  unfoldable pub resample : List ℕ → ℕ → ℕ → Splitmix → List ℕ × Splitmix
  unfolding below
  resample samples n zero rng = ([], rng)
  resample samples n (suc slots) rng =
      let (index, after) = below rng n in
      let (rest, end) = resample samples n slots after in (get_or samples index nan ∷ rest, end)

  unfoldable pub resampled_medians : List ℕ → ℕ → ℕ → Splitmix → Option (List ℕ)
  unfolding resample sorted percentile_sorted
  resampled_medians samples n zero rng = some []
  resampled_medians samples n (suc rounds) rng =
      let (drawn, after) = resample samples n n rng in
      sorted drawn >>? λ s.
      resampled_medians samples n rounds after >>? λ rest. some (percentile_sorted s half ∷ rest)

  interval : List ℕ → ℕ × ℕ
  unfolding percentile_sorted
  interval medians =
      let alpha = arith.div (arith.sub one bootstrap_level) two in
      (percentile_sorted medians alpha, percentile_sorted medians (arith.sub one alpha))

  unfoldable pub bootstrap_median_ci : List ℕ → ℕ → Option (ℕ × ℕ)
  unfolding interval resampled_medians sorted
  bootstrap_median_ci [] seed = some (nan, nan)
  bootstrap_median_ci (v ∷ []) seed = some (v, v)
  bootstrap_median_ci (v ∷ w ∷ rest) seed =
      resampled_medians (v ∷ w ∷ rest) (length (v ∷ w ∷ rest)) bootstrap_resamples seed
      >>? λ medians. sorted medians >>? λ m. some (interval m)

  variance : List ℕ → ℕ → ℕ
  variance samples mean =
      let n = length samples in
      if ltb 1 n
      then arith.div (arith.sum (map (λ v. arith.square (arith.sub v mean)) samples))
          (arith.of_nat (n - 1))
      else 0

  -- Relative to a number that is near zero there is no figure.
  coefficient : ℕ → ℕ → Option ℕ
  unfolding floor_derived
  coefficient mean var =
      if float_ltb epsilon (abs mean)
      then some (floor_derived (arith.div (arith.sqrt var) (abs mean)))
      else none

  half_width : ℕ → ℕ × ℕ → Option ℕ
  unfolding floor_derived
  half_width median (lo, hi) =
      if float_ltb epsilon (abs median)
      then some (
          floor_derived
            (arith.mul (arith.div (arith.div (arith.sub hi lo) two) (abs median)) hundred))
      else none

  -- Of sorted samples: the first, and the rest.
  summary : ℕ → List ℕ → ℕ × ℕ → Tail → Summary
  unfolding percentile_sorted variance coefficient half_width last
  summary v rest ci tail =
      let s = v ∷ rest in
      let mid = percentile_sorted s half in
      let mean = arith.div (arith.sum s) (arith.of_nat (length s)) in
      record {
        n = length s;
        median = mid;
        min = v;
        max = last v rest;
        iqr =
            arith.sub (percentile_sorted s 0x3fe8000000000000)
              (percentile_sorted s 0x3fd0000000000000);
        cov = coefficient mean (variance s mean);
        ci95 = ci;
        ci_half_width_pct = half_width mid ci;
        p95_of_samples = percentile_sorted s bootstrap_level;
        tail = tail;
      }

  -- `tail(&s).expect("non-empty")` panics too where there is no tail.
  summary_of : List ℕ → ℕ → Option (Option Summary)
  unfolding summary bootstrap_median_ci tail
  summary_of [] seed = some none
  summary_of (v ∷ rest) seed = bootstrap_median_ci (v ∷ rest) seed >>? λ ci.
      tail (v ∷ rest) >>? λ o. o >>? λ t. some (some (summary v rest ci t))

  unfoldable pub summarise : List ℕ → ℕ → Option (Option Summary)
  unfolding summary_of sorted
  summarise samples seed = sorted samples >>? λ s. summary_of s seed

  unfoldable pub timer_saturated : ℕ → TimerProbe → Bool
  timer_saturated sample_ns probe =
      if not (float_ltb 0 probe.tick_ns)
      then false
      else float_ltb (arith.div sample_ns probe.tick_ns) min_ticks_per_sample
