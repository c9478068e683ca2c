-- ===== src/Scenarios/Concurrent.antt =====
-- src/storage/scenarios/concurrent_curve.rs: the ladder of thread counts, the chunks of a coordinate
-- set, and one rung of the ladder. The clock, the threads and the reader are values of `Host`.
pub mod Chunks
pub mod Control
use libviprs_bench.Base.{
  ℕ, zero, suc, ◌+◌, ◌*◌, ◌/◌, ◌%◌, String, Bool, true, false, List, [], ◌∷◌, ◌++◌, map, Option,
  none, some, ◌&◌, show, length, take, drop, if◌then◌else◌, ltb, ◌==◌, Result, ok, err, ◌>>=◌,
}
use libviprs_bench.Planner.{Coord}
use libviprs_bench.Scenarios.{Skip, skip_skipped, Outcome, succeeded}

abbrev pub thread_ladder : List ℕ
thread_ladder = 1 ∷ 2 ∷ 4 ∷ 8 ∷ []

abbrev pub oversubscription_limit : ℕ
oversubscription_limit = 2

pub record Arm : Type 0 where
  pub threads : ℕ
  pub oversubscribed : Bool
  pub skip : Option Skip

unfoldable pub is_ok : Arm → Bool
is_ok arm = elim (arm.skip) [ none ↦ true | some skip ↦ false ]

unfoldable pub outcome : Arm → Outcome
outcome arm = elim (arm.skip) [ none ↦ succeeded | some skip ↦ skip.outcome ]

unfoldable pub reason : Arm → Option String
reason arm = elim (arm.skip) [ none ↦ none | some skip ↦ some skip.reason ]

abbrev max_usize : ℕ
max_usize = 18446744073709551615

-- `ncpu.saturating_mul(OVERSUBSCRIPTION_LIMIT).max(1)`
ceiling : ℕ → ℕ
ceiling ncpu =
    let n = ncpu * oversubscription_limit in
    if ltb max_usize n then max_usize else if ltb n 1 then 1 else n

declined : ℕ → ℕ → Skip
unfolding skip_skipped
declined ncpu threads = skip_skipped (
    "this host has "
    & show ncpu
    & " cores and "
    & show threads
    & " threads is more than "
    & show oversubscription_limit
    & "x that: up to twice the core count the rung measures oversubscription, which is a real thing a client produces, and past it the rung measures the scheduler's run queue instead")

rung : ℕ → ℕ → Arm
unfolding ceiling declined
rung ncpu threads = record {
  threads = threads;
  oversubscribed = ltb ncpu threads;
  skip = if ltb (ceiling ncpu) threads then some (declined ncpu threads) else none;
}

unfoldable pub ladder : ℕ → List Arm
unfolding rung
ladder ncpu = map (rung ncpu) thread_ladder

-- `vec![value; n]`
repeated : {A : Type 0} → ℕ → A → List A
repeated zero value = []
repeated (suc n) value = value ∷ repeated n value

module _ {A : Type 0} where
  -- The loop over `index`, of which `left` rounds are left.
  chunks_from : List A → ℕ → ℕ → ℕ → ℕ → ℕ → List (List A)
  chunks_from coords base remainder zero index at = []
  chunks_from coords base remainder (suc left) index at =
      let piece = base + (if ltb index remainder then 1 else 0) in
      take piece (drop at coords) ∷ chunks_from coords base remainder left (index + 1) (at + piece)

  -- The code asserts one thread at least; for none there are no chunks here.
  unfoldable pub chunks : List A → ℕ → List (List A)
  unfolding repeated chunks_from
  chunks coords threads =
      if length coords == 0
      then repeated threads []
      else chunks_from coords (length coords / threads) (length coords % threads) threads 0 0

-- What a rung meets: the reader's answers, whether a tile is there, the time of each lookup and of
-- the arm, the calling thread, the thread that is spawned for a chunk, and whether it panics.
pub record Host : Type 0 where
  pub tile : Coord → Result String (Option (List ℕ))
  pub took : ℕ → Coord → ℕ
  pub elapsed : ℕ → ℕ
  pub current : ℕ
  pub spawned : ℕ → ℕ
  pub panics : ℕ → Bool

pub record ArmRun : Type 0 where
  pub threads : ℕ
  pub latencies : List ℕ
  pub elapsed : ℕ
  pub thread_ids : List ℕ
  pub hits : ℕ
  pub coordinates_walked : ℕ

-- The latencies, the thread, and the hits.
abbrev pub ThreadOutcome : Type 0
ThreadOutcome = Result String (List ℕ × ℕ × ℕ)

-- `u64` additions
abbrev pub u64 : ℕ
u64 = 18446744073709551616

hit_of : Option (List ℕ) → ℕ
hit_of none = 0
hit_of (some bytes) = 1

module _ (host : Host) where
  lookups : ℕ → List Coord → Result String (List ℕ × ℕ)
  unfolding hit_of
  lookups thread [] = ok ([], 0)
  lookups thread (coord ∷ coords) = do
    tile ← host.tile coord
    (latencies, hits) ← lookups thread coords
    ok (host.took thread coord ∷ latencies, (hits + hit_of tile) % u64)

  unfoldable pub walk : ℕ → List Coord → ThreadOutcome
  unfolding lookups
  walk thread coords = do (latencies, hits) ← lookups thread coords; ok (latencies, thread, hits)

  -- `join` of the thread that walks a chunk
  joined : ℕ → List Coord → ThreadOutcome
  unfolding walk
  joined index piece =
      if host.panics index then err "a lookup thread panicked" else walk (host.spawned index) piece

  joined_from : ℕ → List (List Coord) → List ThreadOutcome
  unfolding joined
  joined_from index [] = []
  joined_from index (piece ∷ pieces) = joined index piece ∷ joined_from (index + 1) pieces

  -- The loop that pools the outcomes of the threads.
  pool : List ThreadOutcome → List ℕ → List ℕ → ℕ → Result String (List ℕ × List ℕ × ℕ)
  pool [] latencies thread_ids hits = ok (latencies, thread_ids, hits)
  pool (outcome ∷ rest) latencies thread_ids hits = do
    (chunk_latencies, thread_id, hit) ← outcome
    pool rest (latencies ++ chunk_latencies) (thread_ids ++ thread_id ∷ []) ((hits + hit) % u64)

  run_inline : List Coord → Result String ArmRun
  unfolding walk
  run_inline coords = do
    (latencies, thread_id, hit) ← walk host.current coords
    ok (record {
      threads = 1;
      latencies = latencies;
      elapsed = host.elapsed 1;
      thread_ids = thread_id ∷ [];
      hits = hit % u64;
      coordinates_walked = length coords;
    })

  run_threads : List Coord → ℕ → Result String ArmRun
  unfolding joined_from pool chunks
  run_threads coords threads = do
    (latencies, thread_ids, hits) ← pool (joined_from 0 (chunks coords threads)) [] [] 0
    ok (record {
      threads = threads;
      latencies = latencies;
      elapsed = host.elapsed threads;
      thread_ids = thread_ids;
      hits = hits;
      coordinates_walked = length coords;
    })

  unfoldable pub run_arm : List Coord → ℕ → Result String ArmRun
  unfolding run_inline run_threads
  run_arm coords threads = if threads == 1 then run_inline coords else run_threads coords threads
