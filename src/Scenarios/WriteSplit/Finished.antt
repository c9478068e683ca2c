-- ===== src/Scenarios/WriteSplit/Finished.antt =====
-- src/storage/scenarios/write_split.rs: what the sink below is called with, and when a walk returns.
use libviprs_bench.Base.{
  ℕ, ◌+◌, ◌%◌, ◌^◌, ◌<◌, String, Bool, true, false, ◌&&◌, List, [], ◌∷◌, ◌++◌, ◌≡◌, refl, sym, ap,
  ◌∙◌, if◌then◌else◌, ◌==◌, Result, ok, err, Bool-cases, inl, inr, arith, subst,
}
use mathlib.Core.List.{append-nil, append_assoc}
use libviprs_bench.Scenarios.WriteSplit.{
  Event, write_tile, finish, Answer, Run, ends, asks, asks_inner, DeferFinish, new_defer, HandWalk,
  Readings, deferred, inner_sink, run_collect, finished, after_run, walk,
}

-- A call that the engine makes: of the sink that it was given, or of the one below.
pub data Call : Type 0 where
  of_given : Event → Call
  of_inner : Event → Call

-- The calls that reach the sink below: all but the finishes of the given one.
abbrev pub reaches : List Call → List Event
reaches [] = []
reaches (of_given (write_tile tile) ∷ calls) = write_tile tile ∷ reaches calls
reaches (of_given finish ∷ calls) = reaches calls
reaches (of_inner event ∷ calls) = event ∷ reaches calls

-- How often the engine asked the given sink to finish.
abbrev pub finishes : List Call → ℕ
finishes [] = 0
finishes (of_given (write_tile tile) ∷ calls) = finishes calls
finishes (of_given finish ∷ calls) = 1 + finishes calls
finishes (of_inner event ∷ calls) = finishes calls

abbrev pub is_done : {A : Type 0} → Result String A → Bool
is_done (ok a) = true
is_done (err e) = false

module _ (sink : List Event → Event → Answer) where
  -- The calls of the engine, where the sink below has had these events, and how its run ends: a
  -- finish of the given sink is always accepted.
  abbrev pub calls_of : Run → List Event → List Call
  calls_of (ends result) had = []
  calls_of (asks (write_tile tile) next) had =
      of_given (write_tile tile)
      ∷ calls_of (next (sink had (write_tile tile))) (had ++ write_tile tile ∷ [])
  calls_of (asks finish next) had = of_given finish ∷ calls_of (next (ok tt)) had
  calls_of (asks_inner event next) had =
      of_inner event ∷ calls_of (next (sink had event)) (had ++ event ∷ [])

  abbrev pub end_of : Run → List Event → Result String ℕ
  end_of (ends result) had = result
  end_of (asks (write_tile tile) next) had =
      end_of (next (sink had (write_tile tile))) (had ++ write_tile tile ∷ [])
  end_of (asks finish next) had = end_of (next (ok tt)) had
  end_of (asks_inner event next) had = end_of (next (sink had event)) (had ++ event ∷ [])

  -- What is left after the run.
  record Collected (engine : Run) (d : DeferFinish) : Type 0 where
    ended : (run_collect sink engine d).0 ≡ end_of engine d.inner
    called : (run_collect sink engine d).1.inner ≡ d.inner ++ reaches (calls_of engine d.inner)
    counted :
        (run_collect sink engine d).1.asked
        ≡ (d.asked + finishes (calls_of engine d.inner)) % 2 ^ 32

  run_collect-Collected : (engine : Run) (d : DeferFinish) → d.asked < 2 ^ 32 → Collected engine d
  unfolding run_collect deferred inner_sink
  run_collect-Collected (ends result) d h = record {
    ended = refl;
    called = sym (append-nil d.inner);
    counted = omega arith;
  }
  run_collect-Collected (asks (write_tile tile) next) d h =
      let ih =
        run_collect-Collected (next (sink d.inner (write_tile tile)))
          (record d { inner = d.inner ++ write_tile tile ∷ [] }) h in
      record {
        ended = ih.ended;
        called = ih.called ∙ append_assoc d.inner (write_tile tile ∷ []) _;
        counted = ih.counted;
      }
  run_collect-Collected (asks finish next) d h =
      let ih =
        run_collect-Collected (next (ok tt)) (record d { asked = (d.asked + 1) % 2 ^ 32 })
          (omega arith) in
      record { ended = ih.ended; called = ih.called; counted = ih.counted ∙ omega arith }
  run_collect-Collected (asks_inner event next) d h =
      let ih =
        run_collect-Collected (next (sink d.inner event))
          (record d { inner = d.inner ++ event ∷ [] }) h in
      record {
        ended = ih.ended;
        called = ih.called ∙ append_assoc d.inner (event ∷ []) _;
        counted = ih.counted;
      }

  -- The run ended well, and the given sink was asked to finish once, to the width of the counter.
  abbrev pub is_split : Result String ℕ → ℕ → Bool
  is_split result asked = is_done result && asked % 2 ^ 32 == 1

  -- The walk is that of these calls and this end of the run.
  abbrev pub IsWalk :
      Result String HandWalk × List Event → List Event → Result String ℕ → ℕ → Type 0
  IsWalk (result, events) reached ended asked =
      (events ≡ (if is_split ended asked then reached ++ finish ∷ [] else reached))
      × (is_done result ≡ (is_split ended asked && is_done (sink reached finish)))

  finished-answer :
      (readings : Readings) (output : String) (n : ℕ) (events : List Event) (answer : Answer)
      → ((finished sink readings output n events answer).1 ≡ events)
        × (is_done (finished sink readings output n events answer).0 ≡ is_done answer)
  unfolding finished
  finished-answer readings output n events (ok a) = (refl, refl)
  finished-answer readings output n events (err e) = (refl, refl)

  after_run-IsWalk :
      (readings : Readings) (output : String) (result : Result String ℕ) (d : DeferFinish) (n : ℕ)
      → d.asked ≡ n % 2 ^ 32
      → IsWalk (after_run sink readings output (result, d)) d.inner result n
  unfolding after_run
  after_run-IsWalk readings output (err e) d n h = (refl, refl)
  after_run-IsWalk readings output (ok tiles) d n h = elim (Bool-cases (d.asked == 1)) [
    | inr other ↦
        let e : (n % 2 ^ 32 == 1) ≡ false = sym (ap (λ a. a == 1) h) ∙ other in
        rw (other, e) (refl, refl)
    | inl once ↦
        let e : (n % 2 ^ 32 == 1) ≡ true = sym (ap (λ a. a == 1) h) ∙ once in
        rw (once, e)
          (finished-answer readings output tiles (d.inner ++ finish ∷ []) (sink d.inner finish))
  ]

  -- Whatever the engine asks and the sink answers, the sink below has had exactly the engine's calls
  -- in their order but for the finishes of the given sink, and then one finish if the run ended well
  -- and the given sink was asked to finish once (to the 32 bits of the counter), and none if not; the
  -- walk returns exactly if there was that last finish and the sink accepted it.
  pub walk_lem :
      (readings : Readings) (output : String) (engine : Run)
      → IsWalk
          (walk sink readings output engine)
          (reaches (calls_of engine []))
          (end_of engine [])
          (finishes (calls_of engine []))
  unfolding walk
  walk_lem readings output engine =
      let c = run_collect-Collected engine new_defer (omega arith) in
      subst
        (λ events.
          IsWalk (walk sink readings output engine) events (end_of engine [])
            (finishes (calls_of engine [])))
        c.called
        (subst
          (λ result.
            IsWalk (walk sink readings output engine) (run_collect sink engine new_defer).1.inner
              result (finishes (calls_of engine [])))
          c.ended
          (after_run-IsWalk readings output (run_collect sink engine new_defer).0
            (run_collect sink engine new_defer).1 (finishes (calls_of engine []))
            (c.counted ∙ omega arith)))
