-- ===== src/Scenarios/Concurrent/Control.antt =====
-- src/storage/scenarios/concurrent_curve.rs: a rung of the ladder against the control, which walks
-- the coordinates on the calling thread.
use libviprs_bench.Base.{
  ℕ, suc, ◌+◌, ◌%◌, ◌≤◌, ◌<◌, String, false, List, [], ◌∷◌, ◌++◌, Option, ◌≡◌, refl, ap, sym, ◌∙◌,
  ◌⊎◌, inl, inr, arith, length, length-append, concat, ◌==◌, Bool-cases, Result, ok, err, ◌>>=◌,
}
use libviprs_bench.Planner.{Coord}
use libviprs_bench.Scenarios.Concurrent.{
  Host, ArmRun, u64, hit_of, lookups, walk, joined, joined_from, pool, chunks, run_inline,
  run_threads, run_arm,
}
use libviprs_bench.Scenarios.Concurrent.Chunks.{concat-chunks}

-- What of a rung is no time and no thread: its hits, its latencies' number and its coordinates'.
unfoldable pub facts : Result String ArmRun → Result String (ℕ × ℕ × ℕ)
facts (err e) = err e
facts (ok arm) = ok (arm.hits, length arm.latencies, arm.coordinates_walked)

module _ (host : Host) where
  -- The hits of a walk, or the error of the first lookup that fails.
  hits_of : List Coord → Result String ℕ
  hits_of [] = ok 0
  hits_of (coord ∷ coords) = do
    tile ← host.tile coord
    hits ← hits_of coords
    ok ((hits + hit_of tile) % u64)

  -- A walk fails with an error, or comes through with its hits and a latency for each coordinate.
  abbrev Fails : ℕ → List Coord → String → Type 0
  Fails thread coords e = (hits_of coords ≡ err e) × (lookups host thread coords ≡ err e)

  abbrev Walks : ℕ → List Coord → ℕ → List ℕ → Type 0
  Walks thread coords n latencies =
      (hits_of coords ≡ ok n)
      × (lookups host thread coords ≡ ok (latencies, n))
      × (length latencies ≡ length coords)
      × (n < u64)

  abbrev Runs : ℕ → List Coord → Type 0
  Runs thread coords =
      ((e : String) × Fails thread coords e)
      ⊎ ((n : ℕ) × (latencies : List ℕ) × Walks thread coords n latencies)

  Runs-cons :
      (thread : ℕ) (coord : Coord) (coords : List Coord) (answer : Result String (Option (List ℕ)))
      → host.tile coord ≡ answer
      → Runs thread coords
      → Runs thread (coord ∷ coords)
  unfolding hits_of lookups
  Runs-cons thread coord coords (err e) h _ = inl (e, (rw h refl, rw h refl))
  Runs-cons thread coord coords (ok tile) h (inl (e, (none_left, failed))) =
      inl (e, (rw (h, none_left) refl, rw (h, failed) refl))
  Runs-cons thread coord coords (ok tile) h (inr (n, ls, (counted, walked, all, small))) = inr (
    (n + hit_of tile) % u64,
    host.took thread coord ∷ ls,
    (rw (h, counted) refl, rw (h, walked) refl, ap suc all, omega arith),
  )

  runs : (thread : ℕ) (coords : List Coord) → Runs thread coords
  unfolding hits_of lookups
  runs thread [] = inr (0, [], (refl, refl, refl, omega arith))
  runs thread (coord ∷ coords) =
      Runs-cons thread coord coords (host.tile coord) refl (runs thread coords)

  hits_of-small : (coords : List Coord) (n : ℕ) → hits_of coords ≡ ok n → n < u64
  hits_of-small coords n h = elim (runs 0 coords) [
    | inl (e, (counted, _)) ↦ absurd (cc)
    | inr (m, ls, (counted, walked, all, small)) ↦ let same : n ≡ m = cc in omega arith
  ]

  add_hits : Result String ℕ → Result String ℕ → Result String ℕ
  add_hits (err e) later = err e
  add_hits (ok a) (err e) = err e
  add_hits (ok a) (ok b) = ok ((a + b) % u64)

  add_hits-step :
      (tile : Result String (Option (List ℕ))) (left right : Result String ℕ)
      → (tile >>= λ t. add_hits left right >>= λ n. ok ((n + hit_of t) % u64))
        ≡ add_hits (tile >>= λ t. left >>= λ n. ok ((n + hit_of t) % u64)) right
  unfolding add_hits
  add_hits-step (err e) left right = refl
  add_hits-step (ok t) (err e) right = refl
  add_hits-step (ok t) (ok a) (err e) = refl
  add_hits-step (ok t) (ok a) (ok b) = ap ok (omega arith)

  hits_of-append : (xs ys : List Coord) → hits_of (xs ++ ys) ≡ add_hits (hits_of xs) (hits_of ys)
  unfolding hits_of add_hits
  hits_of-append [] ys = elim (runs 0 ys) [
    | inl (e, (counted, _)) ↦ rw counted refl
    | inr (n, ls, (counted, walked, all, small)) ↦ rw counted (ap ok (omega arith))
  ]
  hits_of-append (x ∷ xs) ys =
      rw (hits_of-append xs ys) (add_hits-step (host.tile x) (hits_of xs) (hits_of ys))

  abbrev Pooled : List (List Coord) → Result String (List ℕ × List ℕ × ℕ) → ℕ → ℕ → Type 0
  Pooled pieces pooled had hits =
      ((e : String) × (hits_of (concat pieces) ≡ err e) × (pooled ≡ err e))
      ⊎ ((n : ℕ) × (ls : List ℕ) × (ids : List ℕ) × (hits_of (concat pieces) ≡ ok n)
          × (pooled ≡ ok (ls, ids, (hits + n) % u64))
          × (length ls ≡ had + length (concat pieces)))

  pool_lem :
      (pieces : List (List Coord)) (index : ℕ) (latencies ids : List ℕ) (hits : ℕ)
      → ((i : ℕ) → host.panics i ≡ false)
      → hits < u64
      → Pooled pieces
          (pool host (joined_from host index pieces) latencies ids hits)
          (length latencies)
          hits
  unfolding pool joined_from joined walk add_hits hits_of
  pool_lem [] index latencies ids hits calm small =
      inr (0, latencies, ids, refl, ap (λ n. ok (latencies, ids, n)) (omega arith), omega arith)
  pool_lem (piece ∷ pieces) index latencies ids hits calm small =
      rw (calm index, hits_of-append piece (concat pieces))
        (elim (runs (host.spawned index) piece) [
          | inl (e, (counted, failed)) ↦ inl (e, rw counted refl, rw failed refl)
          | inr (n, ls, (counted, walked, all, bound)) ↦
              elim (pool_lem pieces (index + 1) (latencies ++ ls) (ids ++ host.spawned index ∷ [])
                ((hits + n) % u64) calm (omega arith)) [
                  | inl (e, none_left, failed) ↦
                      inl (e, rw (counted, none_left) refl, rw walked failed)
                  | inr (m, ks, js, left, done, size) ↦ inr (
                    (n + m) % u64,
                    ks,
                    js,
                    rw (counted, left) refl,
                    rw walked (done ∙ ap (λ k. ok (ks, js, k)) (omega arith)),
                    omega (
                      arith,
                      size,
                      all,
                      length-append latencies ls,
                      length-append piece (concat pieces),
                    ),
                  )
                ]
        ])

  -- The facts of a rung, from its coordinates alone.
  counted_facts : List Coord → Result String ℕ → Result String (ℕ × ℕ × ℕ)
  counted_facts coords (err e) = err e
  counted_facts coords (ok n) = ok (n, length coords, length coords)

  facts-run_inline :
      (coords : List Coord) → facts (run_inline host coords) ≡ counted_facts coords (hits_of coords)
  unfolding run_inline walk facts counted_facts
  facts-run_inline coords = elim (runs host.current coords) [
    | inl (e, (counted, failed)) ↦ rw (counted, failed) refl
    | inr (n, ls, (counted, walked, all, small)) ↦
        let same : n % u64 ≡ n = omega arith in rw (counted, walked, all, same) refl
  ]

  facts-run_threads :
      (coords : List Coord) (threads : ℕ)
      → 1 ≤ threads
      → ((i : ℕ) → host.panics i ≡ false)
      → facts (run_threads host coords threads) ≡ counted_facts coords (hits_of coords)
  unfolding run_threads facts counted_facts
  facts-run_threads coords threads some_thread calm =
      let (_, whole, _) = concat-chunks coords threads some_thread in
      elim (pool_lem (chunks coords threads) 0 [] [] 0 calm (omega arith)) [
        | inl (e, counted, failed) ↦ rw (failed, ap hits_of (sym whole) ∙ counted) refl
        | inr (n, ls, ids, counted, pooled, size) ↦
            let all : length ls ≡ length coords = omega (arith, size, ap (λ xs. length xs) whole) in
            let small = hits_of-small coords n (ap hits_of (sym whole) ∙ counted) in
            let same : (0 + n) % u64 ≡ n = omega arith in
            rw (pooled, ap hits_of (sym whole) ∙ counted, all, same) refl
      ]

  -- Where no thread panics, a rung of at least one thread finds the hits of the control, takes one
  -- latency for each of the same coordinates, and fails exactly if the control fails and with the
  -- same error.
  pub run_arm-control :
      (coords : List Coord) (threads : ℕ)
      → 1 ≤ threads
      → ((i : ℕ) → host.panics i ≡ false)
      → facts (run_arm host coords threads) ≡ facts (run_arm host coords 1)
  unfolding run_arm
  run_arm-control coords threads some_thread calm = elim (Bool-cases (threads == 1)) [
    | inl one ↦ rw one refl
    | inr more ↦
        rw more (facts-run_threads coords threads some_thread calm ∙ sym (facts-run_inline coords))
  ]
