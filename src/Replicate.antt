-- ===== src/Replicate.antt =====
-- src/storage/scenarios/replicate.rs, the schedule of the replicate control: `schedule`,
-- `placements`, `has_adjacent_placements` and `measured_first_and_last`, over any type of cells.
pub mod Schedule
use libviprs_bench.Base.{
  ℕ, zero, suc, Bool, true, false, ◌&&◌, ◌||◌, List, [], ◌∷◌, ◌≡◌, refl, length, leb, if◌then◌else◌,
}

module _ {ℓ} {T : Type ℓ} where
  -- The loop of `schedule` after the first placement.
  unfoldable pub after_each : T → List T → List T
  after_each replicate [] = []
  after_each replicate (cell ∷ rest) = cell ∷ replicate ∷ after_each replicate rest

  unfoldable pub schedule : T → List T → List T
  unfolding after_each
  schedule replicate rest = replicate ∷ after_each replicate rest

-- `T : PartialEq`, as a test
module _ {ℓ} {T : Type ℓ} (eq : T → T → Bool) where
  unfoldable pub placements : List T → T → ℕ
  placements [] replicate = 0
  placements (cell ∷ cells) replicate =
      let later = placements cells replicate in if eq cell replicate then suc later else later

  unfoldable pub has_adjacent_placements : List T → T → Bool
  has_adjacent_placements [] replicate = false
  has_adjacent_placements (a ∷ []) replicate = false
  has_adjacent_placements (a ∷ b ∷ cells) replicate =
      (eq a replicate && eq b replicate) || has_adjacent_placements (b ∷ cells) replicate

  -- `last() == Some(&replicate)`
  unfoldable pub ends_with : List T → T → Bool
  ends_with [] replicate = false
  ends_with (a ∷ []) replicate = eq a replicate
  ends_with (a ∷ b ∷ cells) replicate = ends_with (b ∷ cells) replicate

  abbrev pub starts_with : List T → T → Bool
  starts_with [] replicate = false
  starts_with (a ∷ cells) replicate = eq a replicate

  unfoldable pub measured_first_and_last : List T → T → Bool
  unfolding ends_with
  measured_first_and_last cells replicate =
      leb 2 (length cells) && starts_with cells replicate && ends_with cells replicate
