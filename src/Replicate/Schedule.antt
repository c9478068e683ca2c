-- ===== src/Replicate/Schedule.antt =====
-- src/storage/scenarios/replicate.rs: lemmas on `schedule` and the tests of its placements.
use libviprs_bench.Base.{
  ◌+◌, Bool, true, false, ◌≡◌, refl, List, [], ◌∷◌, All, arith, length, leb, if◌then◌else◌,
}
use libviprs_bench.Replicate.{
  after_each, schedule, placements, has_adjacent_placements, ends_with, measured_first_and_last,
}

module _ {ℓ} {T : Type ℓ} (eq : T → T → Bool) (replicate : T) where
  -- What a schedule measures besides the control, in order.
  pub others : List T → List T
  others [] = []
  others (cell ∷ cells) = if eq cell replicate then others cells else cell ∷ others cells

module _ {ℓ} {T : Type ℓ} (eq : T → T → Bool) (replicate : T)
    (self : eq replicate replicate ≡ true) where
  -- The cells of `rest` are other cells than the control.
  abbrev AreOthers : List T → Type 0
  AreOthers rest = All (λ c. eq c replicate ≡ false) rest

  placements-after_each :
      (rest : List T)
      → AreOthers rest
      → placements eq (after_each replicate rest) replicate ≡ length rest
  unfolding placements after_each
  placements-after_each [] h = refl
  placements-after_each (cell ∷ rest) (other, h) =
      rw (other, self) (ground (arith, placements-after_each rest h))

  adjacent-after_each :
      (rest : List T)
      → AreOthers rest
      → has_adjacent_placements eq (schedule replicate rest) replicate ≡ false
  unfolding has_adjacent_placements schedule
  adjacent-after_each [] h = refl
  adjacent-after_each (cell ∷ rest) (other, h) = rw (self, other) (adjacent-after_each rest h)

  ends_with-after_each : (rest : List T) → ends_with eq (schedule replicate rest) replicate ≡ true
  unfolding ends_with schedule
  ends_with-after_each [] = self
  ends_with-after_each (cell ∷ rest) = ends_with-after_each rest

  -- Where the other cells are none of them the control, the control is placed once more than
  -- there are other cells, never twice in a row, and, exactly if there is another cell, both
  -- first and last of two cells at least.
  pub schedule-placements :
      (rest : List T)
      → AreOthers rest
      → (placements eq (schedule replicate rest) replicate ≡ length rest + 1)
        × (has_adjacent_placements eq (schedule replicate rest) replicate ≡ false)
        × (measured_first_and_last eq (schedule replicate rest) replicate ≡ leb 1 (length rest))
  unfolding schedule placements measured_first_and_last
  schedule-placements rest h = (
    rw self (ground (arith, placements-after_each rest h)),
    adjacent-after_each rest h,
    ends rest,
  )
    where
      ends :
          (r : List T)
          → measured_first_and_last eq (schedule replicate r) replicate ≡ leb 1 (length r)
      ends [] = refl
      ends (cell ∷ r) = rw self (ground (arith, ends_with-after_each (cell ∷ r)))

  others-after_each :
      (rest : List T) → AreOthers rest → others eq replicate (after_each replicate rest) ≡ rest
  unfolding others after_each
  others-after_each [] h = refl
  others-after_each (cell ∷ rest) (other, h) = rw (other, self) (rw (others-after_each rest h))

  -- Where the other cells are none of them the control, the schedule without its control is those
  -- cells, each once and in their order.
  pub others-schedule :
      (rest : List T) → AreOthers rest → others eq replicate (schedule replicate rest) ≡ rest
  unfolding others schedule
  others-schedule rest h = rw self (others-after_each rest h)
