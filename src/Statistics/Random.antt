-- ===== src/Statistics/Random.antt =====
-- src/storage/stats.rs: the generator and the draws of the bootstrap.
use native.Mathlib.Nat.{mod-lt}
use libviprs_bench.Base.{
  ℕ, zero, suc, ◌<◌, ◌≤◌, List, [], ◌∷◌, ◌≡◌, refl, ap, arith, All, length, get_or,
}
use libviprs_bench.Statistics.{Arith, Splitmix, next_u64, below, resample}

-- A draw below a bound that is not 0 is below it.
below_bound : (rng : Splitmix) (bound : ℕ) → 1 ≤ bound → (below rng bound).0 < bound
unfolding below
below_bound rng zero h = absurd (omega arith)
below_bound rng (suc n) h = mod-lt (next_u64 rng).0 (omega arith)

get_or-All :
    (P : ℕ → Type 0) (samples : List ℕ) (i d : ℕ)
    → i < length samples
    → All P samples
    → P (get_or samples i d)
get_or-All P [] i d h k = absurd (omega arith)
get_or-All P (v ∷ samples) zero d h (p, k) = p
get_or-All P (v ∷ samples) (suc i) d h (p, k) = get_or-All P samples i d (omega arith) k

-- A resample of samples that are not empty has as many values as were asked for, and each of them
-- is a sample: what holds of every sample holds of every value drawn.
pub resample_lem :
    (ar : Arith) (P : ℕ → Type 0) (samples : List ℕ) (slots : ℕ) (rng : Splitmix)
    → 1 ≤ length samples
    → All P samples
    → (length (resample ar samples (length samples) slots rng).0 ≡ slots)
      × All P (resample ar samples (length samples) slots rng).0
unfolding resample
resample_lem ar P samples zero rng h k = (refl, tt)
resample_lem ar P samples (suc slots) rng h k =
    let drawn = below rng (length samples) in
    let (size, rest) = resample_lem ar P samples slots drawn.1 h k in
    (ap suc size, (get_or-All P samples drawn.0 _ (below_bound rng (length samples) h) k, rest))
